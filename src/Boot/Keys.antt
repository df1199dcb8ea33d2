-- ===== src/Boot/Keys.antt =====
-- crates/k0-boot/src/entropy.rs: derive_pac_keys. The hash SHA-256 is an argument.
use k.Base.{
  ◌^◌, arith, fun_ext, ℕ, zero, suc, ◌+◌, ◌*◌, ◌/◌, ◌%◌, ◌≡◌, refl, ap, ◌∙◌, true, false, ◌==◌,
  List, [], ◌∷◌, ◌++◌, length, Option, none, some,
}
use k.Base.Bytes.{codes, take, drop, from_be, from_be_after, to_be}
use native.Mathlib.Nat.{pow-suc, div-div-eq-div-mul}

-- The bytes turned round.
pub reverse : List ℕ → List ℕ
reverse [] = []
reverse (b ∷ bs) = reverse bs ++ (b ∷ [])

-- `from_le_bytes`, and `to_le_bytes` in `n` bytes.
unfoldable pub from_le : List ℕ → ℕ
from_le [] = 0
from_le (b ∷ bs) = b + 256 * from_le bs

unfoldable pub to_le : (n v : ℕ) → List ℕ
to_le zero v = []
to_le (suc n) v = (v % 256) ∷ to_le n (v / 256)

unfoldable pub all_le : List ℕ → List ℕ
all_le [] = []
all_le (w ∷ ws) = to_le 8 w ++ all_le ws

-- What is hashed for one block.
unfoldable pub block_input : (dtb_entropy extra : List ℕ) → (counter : ℕ) → List ℕ
block_input dtb_entropy extra counter =
    codes "k0-pac-boot-key-v1"
    ++ ((counter ∷ []) ++ (to_le 8 (length dtb_entropy) ++ (dtb_entropy ++ all_le extra)))

-- `chunks_exact(8)`, of which there are `n`, as words.
unfoldable pub words_of : (n : ℕ) → List ℕ → List ℕ
words_of zero block = []
words_of (suc n) block = from_le (take 8 block) ∷ words_of n (drop 8 block)

abbrev pub key_count : ℕ
key_count = 10

-- The loop over the chunks, with its break.
unfoldable pub fill_keys : (keys words : List ℕ) → List ℕ
fill_keys keys [] = keys
fill_keys keys (w ∷ ws) = elim (length keys == key_count) [
  | true ↦ keys
  | false ↦ fill_keys (keys ++ (w ∷ [])) ws
]

-- The loop over the blocks, from `counter` on. `none` is the overflow of the counter, a byte, which has
-- `left` values left.
unfoldable pub derive_from :
    (block : ℕ → List ℕ) → (left counter : ℕ) → (keys : List ℕ) → Option (List ℕ)
derive_from block zero counter keys = none
derive_from block (suc left) counter keys = elim (length keys == key_count) [
  | true ↦ some keys
  | false ↦
      derive_from block left (counter + 1)
        (fill_keys keys (words_of (length (block counter) / 8) (block counter)))
]

unfoldable pub derive_pac_keys :
    (sha256 : List ℕ → List ℕ) → (dtb_entropy extra : List ℕ) → Option (List ℕ)
derive_pac_keys sha256 dtb_entropy extra =
    derive_from (λ counter. sha256 (block_input dtb_entropy extra counter)) 256 0 []

reverse_end : (xs : List ℕ) (x : ℕ) → reverse (xs ++ (x ∷ [])) ≡ x ∷ reverse xs
unfolding reverse
reverse_end [] x = refl
reverse_end (y ∷ ys) x = ap (λ t. t ++ (y ∷ [])) (reverse_end ys x)

from_be_end :
    (acc : ℕ) (xs : List ℕ) (x : ℕ)
    → from_be_after acc (xs ++ (x ∷ [])) ≡ from_be_after acc xs * 256 + x
unfolding from_be_after
from_be_end acc [] x = refl
from_be_end acc (y ∷ ys) x = from_be_end (acc * 256 + y) ys x

-- The least significant byte first.
from_le-reverse : (bs : List ℕ) → from_le bs ≡ from_be (reverse bs)
unfolding from_le reverse from_be_after
from_le-reverse [] = refl
from_le-reverse (b ∷ bs) = omega (arith, from_be_end 0 (reverse bs) b, from_le-reverse bs)

to_le_end : (n v : ℕ) → to_le (suc n) v ≡ to_le n v ++ ((v / 256 ^ n % 256) ∷ [])
unfolding to_le
to_le_end zero v = ap (λ t. (t % 256) ∷ []) {x = v} {y = v / 256 ^ 0} (omega arith)
to_le_end (suc n) v =
    ap (λ t. (v % 256) ∷ t)
      (to_le_end n (v / 256)
        ∙ ap (λ t. to_le n (v / 256) ++ ((t % 256) ∷ []))
            (div-div-eq-div-mul v 256 (256 ^ n)
              ∙ ap (λ t. v / t) {x = 256 * 256 ^ n} {y = 256 ^ suc n}
                  (omega (arith, pow-suc 256 n))))

to_le-reverse : (n v : ℕ) → to_le n v ≡ reverse (to_be n v)
unfolding to_le to_be reverse
to_le-reverse zero v = refl
to_le-reverse (suc n) v =
    to_le_end n v ∙ ap (λ t. t ++ ((v / 256 ^ n % 256) ∷ [])) (to_le-reverse n v)

-- Word `j` of a block: its eight bytes, turned round, as a number of the most significant byte first.
pub word_at : (j : ℕ) → List ℕ → ℕ
word_at zero block = from_be (reverse (take 8 block))
word_at (suc j) block = word_at j (drop 8 block)

-- Each word, the least significant byte first.
abbrev pub words_bytes : List ℕ → List ℕ
words_bytes [] = []
words_bytes (w ∷ ws) = reverse (to_be 8 w) ++ words_bytes ws

-- The text of a block: the name of the derivation, the number of the block, and the material.
abbrev pub block_text : (dtb_entropy extra : List ℕ) → (counter : ℕ) → List ℕ
block_text dtb_entropy extra counter =
    codes "k0-pac-boot-key-v1"
    ++ (counter ∷ (reverse (to_be 8 (length dtb_entropy)) ++ (dtb_entropy ++ words_bytes extra)))

all_le-bytes : (ws : List ℕ) → all_le ws ≡ words_bytes ws
unfolding all_le
all_le-bytes [] = refl
all_le-bytes (w ∷ ws) =
    ap (λ t. t ++ all_le ws) (to_le-reverse 8 w)
    ∙ ap (λ t. reverse (to_be 8 w) ++ t) (all_le-bytes ws)

block_input-text :
    (dtb_entropy extra : List ℕ) (counter : ℕ)
    → block_input dtb_entropy extra counter ≡ block_text dtb_entropy extra counter
unfolding block_input
block_input-text dtb_entropy extra counter =
    ap (λ t. codes "k0-pac-boot-key-v1" ++ (counter ∷ (t ++ (dtb_entropy ++ all_le extra))))
      (to_le-reverse 8 (length dtb_entropy))
    ∙ ap
        (λ t.
          codes "k0-pac-boot-key-v1"
          ++ (counter ∷ (reverse (to_be 8 (length dtb_entropy)) ++ (dtb_entropy ++ t))))
        (all_le-bytes extra)

four_words :
    (block : List ℕ)
    → length block ≡ 32
    → words_of (length block / 8) block
      ≡ word_at 0 block ∷ word_at 1 block ∷ word_at 2 block ∷ word_at 3 block ∷ []
unfolding words_of word_at
four_words block h =
    rw
      (
        h,
        from_le-reverse (take 8 block),
        from_le-reverse (take 8 (drop 8 block)),
        from_le-reverse (take 8 (drop 8 (drop 8 block))),
        from_le-reverse (take 8 (drop 8 (drop 8 (drop 8 block)))),
      )
      refl

-- One round of the loop.
derive_round :
    (block : ℕ → List ℕ) (left counter : ℕ) (keys : List ℕ)
    → (length keys == key_count) ≡ false
    → length (block counter) ≡ 32
    → let b = block counter in
      derive_from block (suc left) counter keys
      ≡ derive_from block left
          (counter + 1)
          (fill_keys keys (word_at 0 b ∷ word_at 1 b ∷ word_at 2 b ∷ word_at 3 b ∷ []))
unfolding derive_from
derive_round block left counter keys open_ h =
    let more : List ℕ → Option (List ℕ) =
      λ words. derive_from block left (counter + 1) (fill_keys keys words) in
    let words = words_of (length (block counter) / 8) (block counter) in
    ap {B = Option (List ℕ)} (λ full. elim full [ true ↦ some keys | false ↦ more words ]) open_
    ∙ ap more (four_words (block counter) h)

-- The ten keys: the four words of the blocks 0 and 1, and the first two of block 2.
abbrev pub ten_words : (block : ℕ → List ℕ) → List ℕ
ten_words block =
    word_at 0 (block 0)
    ∷ word_at 1 (block 0)
    ∷ word_at 2 (block 0)
    ∷ word_at 3 (block 0)
    ∷ word_at 0 (block 1)
    ∷ word_at 1 (block 1)
    ∷ word_at 2 (block 1)
    ∷ word_at 3 (block 1)
    ∷ word_at 0 (block 2)
    ∷ word_at 1 (block 2)
    ∷ []

-- With a hash of 32 bytes the derivation ends, without an overflow of the counter. The keys are ten words, read with the
-- least significant byte first: in order the four words of the blocks 0 and 1 and the first two of block 2. Each block
-- is the hash of the name of the derivation, the number of the block, the length of the seeds, the seeds and the extra
-- words.
pub derive_pac_keys-words :
    (sha256 : List ℕ → List ℕ) (dtb_entropy extra : List ℕ)
    → ((bytes : List ℕ) → length (sha256 bytes) ≡ 32)
    → derive_pac_keys sha256 dtb_entropy extra
      ≡ some (ten_words (λ counter. sha256 (block_text dtb_entropy extra counter)))
unfolding derive_pac_keys derive_from fill_keys
derive_pac_keys-words sha256 dtb_entropy extra h =
    let block : ℕ → List ℕ = λ counter. sha256 (block_input dtb_entropy extra counter) in
    let four : ℕ → List ℕ = λ c.
      word_at 0 (block c) ∷ word_at 1 (block c) ∷ word_at 2 (block c) ∷ word_at 3 (block c) ∷ [] in
    derive_round block 255 0 [] refl (h _)
    ∙ (derive_round block 254 1 (four 0) refl (h _)
        ∙ derive_round block 253 2 (four 0 ++ four 1) refl (h _))
    ∙ ap (λ texts. some (ten_words (λ counter. sha256 (texts counter))))
        (fun_ext (λ counter. block_input-text dtb_entropy extra counter))
