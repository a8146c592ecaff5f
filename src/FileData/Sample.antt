-- ===== src/FileData/Sample.antt =====
-- A file of one block, for the runs of kernel/fs.c's functions.
use computer_system.Prelude.{ℕ, zero, suc, ◌<◌, ◌≡◌, ◌≢◌, refl, ◌∙◌}
use computer_system.Inode.{ndirect, Fs}
use computer_system.Inode.Blocks.{IsKept}
use computer_system.Inode.File.{addrs_of, block_of, IsFile}
use computer_system.FileData.Owned.{maxfile, Owns}

pub one_block-Owns :
    (fs : Fs) (ip : ℕ)
    → IsFile fs ip
    → ((bn : ℕ) → block_of fs ip (suc bn) ≡ 0)
    → addrs_of fs ip ndirect ≡ 0
    → IsKept fs.sb fs.disk (block_of fs ip 0)
    → Owns fs ip
one_block-Owns fs ip file others top kept_first = record {
  file = file;
  kept = kept;
  no_list = λ bn lt h q. h (q ∙ top);
  apart = apart;
}
  where
    kept :
        (bn : ℕ) → bn < maxfile → block_of fs ip bn ≢ 0 → IsKept fs.sb fs.disk (block_of fs ip bn)
    kept zero lt h = kept_first
    kept (suc bn) lt h = absurd (h (others bn))

    apart :
        (bn bn' : ℕ)
        → bn < maxfile
        → bn' < maxfile
        → bn ≢ bn'
        → block_of fs ip bn ≢ 0
        → block_of fs ip bn ≢ block_of fs ip bn'
    apart zero zero lt lt' ne h q = ne refl
    apart zero (suc bn') lt lt' ne h q = h (q ∙ others bn')
    apart (suc bn) bn' lt lt' ne h q = h (others bn)
