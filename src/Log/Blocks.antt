-- ===== src/Log/Blocks.antt =====
-- What one write of the log code does to the disk and to the buffers.
use computer_system.Prelude.{ℕ, ◌≡◌, refl, ◌∷◌, update, arith}
use computer_system.Buffers.{Block, Buffers, contents, bread}
use computer_system.Log.{Log, log_block, install_block, write_head}
use computer_system.Log.Header.{header_block}

-- One bwrite of `blk` to block `to`: the disk, the buffers and the disks left behind.
pub record Writes (m : Buffers) (to : ℕ) (blk : Block) (m' : Buffers) : Type 0 where
  pub disk_at : (c : ℕ) → m'.disk c ≡ update m.disk to blk c
  pub contents_at : (c : ℕ) → contents m' c ≡ update (contents m) to blk c
  pub past_is : m'.past ≡ m'.disk ∷ m.past

pub contents-bread : (m : Buffers) (b c : ℕ) → contents (bread m b) c ≡ contents m c
unfolding contents bread
contents-bread m b c = ground arith

pub log_block-Writes : (m : Buffers) (to b : ℕ) → Writes m to (contents m b) (log_block m to b)
unfolding log_block bread
log_block-Writes m to b = record {
  disk_at = λ c. ground arith;
  contents_at = λ c. ground arith;
  past_is = refl;
}

pub install_block-Writes :
    (m : Buffers) (from b : ℕ) → Writes m b (contents m from) (install_block m from b)
unfolding install_block bread
install_block-Writes m from b = record {
  disk_at = λ c. ground arith;
  contents_at = λ c. ground arith;
  past_is = refl;
}

pub write_head-Writes :
    (l : Log) (m : Buffers)
    → Writes m l.start (header_block (contents m l.start) l.lh) (write_head l m)
unfolding write_head bread
write_head-Writes l m = record {
  disk_at = λ c. ground arith;
  contents_at = λ c. ground arith;
  past_is = refl;
}
