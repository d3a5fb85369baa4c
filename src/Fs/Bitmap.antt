-- ===== src/Fs/Bitmap.antt =====
-- What `balloc` and `bfree` of initial-xv6/src/kernel/fs.c do to the bits of the bitmap.
use mini_project_3_amey_chou.Common.{
  ℕ, ◌/◌, ◌%◌, ◌≡◌, ◌≢◌, ◌==◌, ◌&&◌, inl, inr, Bool, true, false, refl, arith, if◌then◌else◌,
  update-ne, ap, ap₂, sym, ◌∙◌, Bool-cases,
}
use mini_project_3_amey_chou.Vm.{has_bit, set_bit, clear_bit}
use mini_project_3_amey_chou.Fs.{
  Fs, bpb, bitmap_block, bit_byte, in_use, put_byte, mark_used, mark_free, bzero,
}
use mini_project_3_amey_chou.Fs.Bits.{has_bit-set_bit, has_bit-clear_bit}

abbrev byte_of : Fs → ℕ → ℕ
byte_of fs b = fs.block (bitmap_block fs b) (bit_byte b)

abbrev same_byte : (b c : ℕ) → Bool
same_byte b c = ((b / bpb) == (c / bpb)) && (bit_byte b == bit_byte c)

byte_of-put_byte :
    (fs : Fs) (b x c : ℕ)
    → byte_of (put_byte fs b x) c ≡ (if same_byte b c then x else byte_of fs c)
unfolding put_byte
byte_of-put_byte fs b x c = ground arith

same_byte-byte_of : (fs : Fs) (b c : ℕ) → same_byte b c ≡ true → byte_of fs b ≡ byte_of fs c
same_byte-byte_of fs b c h = ap₂ fs.block (ground arith) (ground arith)

same_bit : (b c : ℕ) → same_byte b c ≡ true → ((b % bpb % 8) == (c % bpb % 8)) ≡ (b == c)
same_bit b c h = ground arith

other_bit : (b c : ℕ) → same_byte b c ≡ false → (b == c) ≡ false
other_bit b c h = ground arith

-- A write to the bit of one block, by a function that gives the bit `v` and keeps the others.
module _ (f : ℕ → ℕ → ℕ) (v : Bool)
    (law : (i j w : ℕ) → has_bit j (f i w) ≡ (if i == j then v else has_bit j w)) (fs : Fs)
    (b : ℕ) where
  in_use-put_byte :
      (c : ℕ)
      → in_use (put_byte fs b (f (b % bpb % 8) (byte_of fs b))) c
        ≡ (if b == c then v else in_use fs c)
  unfolding in_use
  in_use-put_byte c =
      ap (has_bit (c % bpb % 8)) (byte_of-put_byte fs b (f (b % bpb % 8) (byte_of fs b)) c)
      ∙ elim (Bool-cases (same_byte b c)) [
        | inl same ↦ rw same (
            law (b % bpb % 8) (c % bpb % 8) (byte_of fs b)
            ∙ ap₂ (λ t w. if t then v else has_bit (c % bpb % 8) w) (same_bit b c same)
                (same_byte-byte_of fs b c same))
        | inr other ↦ rw (other, other_bit b c other) refl
      ]

pub in_use-mark_used :
    (fs : Fs) (b c : ℕ) → in_use (mark_used b fs) c ≡ (if b == c then true else in_use fs c)
unfolding mark_used
in_use-mark_used fs b c = in_use-put_byte set_bit true has_bit-set_bit fs b c

pub in_use-mark_free :
    (fs : Fs) (b c : ℕ) → in_use (mark_free b fs) c ≡ (if b == c then false else in_use fs c)
unfolding mark_free
in_use-mark_free fs b c = in_use-put_byte clear_bit false has_bit-clear_bit fs b c

pub in_use-bzero : (fs : Fs) (b c : ℕ) → b ≢ bitmap_block fs c → in_use (bzero b fs) c ≡ in_use fs c
unfolding bzero in_use
in_use-bzero fs b c ne =
    ap (λ (x : ℕ → ℕ). has_bit (c % bpb % 8) (x (bit_byte c)))
      (update-ne fs.block b (bitmap_block fs c) _ ne)

pub put_byte-off :
    (fs : Fs) (b x c : ℕ) → c ≢ bitmap_block fs b → (put_byte fs b x).block c ≡ fs.block c
unfolding put_byte
put_byte-off fs b x c ne = update-ne fs.block (bitmap_block fs b) c _ (λ e. ne (sym e))
