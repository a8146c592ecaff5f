-- ===== src/Log/Header.antt =====
-- The header block: what write_head writes is what read_head reads.
use computer_system.Prelude.{
  ℕ, ◌+◌, ◌<◌, ◌≡◌, refl, ◌∙◌, ap, ap₂, List, [], ◌∷◌, length, update, arith,
}
use computer_system.Buffers.{Block}
use computer_system.Log.{words, put_words}

pub put_words-before :
    (blk : Block) (i : ℕ) (bs : List ℕ) (j : ℕ) → j < i → put_words blk i bs j ≡ blk j
unfolding put_words
put_words-before blk i [] j h = refl
put_words-before blk i (b ∷ bs) j h =
    put_words-before (update blk i b) (i + 1) bs j (omega arith) ∙ ground arith

-- The words that the loop of write_head puts into a block are those that read_head's takes out.
pub words-put_words :
    (blk : Block) (i : ℕ) (bs : List ℕ) → words (put_words blk i bs) i (length bs) ≡ bs
unfolding words put_words
words-put_words blk i [] = refl
words-put_words blk i (b ∷ bs) =
    ap₂ ◌∷◌ (put_words-before (update blk i b) (i + 1) bs i (omega arith) ∙ ground arith)
      (words-put_words (update blk i b) (i + 1) bs)

-- A header block as write_head leaves it.
abbrev pub header_block : Block → List ℕ → Block
header_block blk bs = put_words (update blk 0 (length bs)) 1 bs

-- The block list that read_head finds in a header block.
abbrev pub header_list : Block → List ℕ
header_list blk = words blk 1 (blk 0)

pub header_block-count : (blk : Block) (bs : List ℕ) → header_block blk bs 0 ≡ length bs
header_block-count blk bs =
    put_words-before (update blk 0 (length bs)) 1 bs 0 (omega arith) ∙ ground arith

pub header_list-header_block : (blk : Block) (bs : List ℕ) → header_list (header_block blk bs) ≡ bs
header_list-header_block blk bs =
    ap (words (header_block blk bs) 1) (header_block-count blk bs)
    ∙ words-put_words (update blk 0 (length bs)) 1 bs
