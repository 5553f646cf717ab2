-- ===== src/Cipher/Ctr/Keystream.antt =====
-- What ctr_crypt_update writes from a fresh context: the keystream byte for byte.
use native.Mathlib.Nat.{mod-add-mod, suc-mul, zero-mul, mod-eq_of_lt}
use mini_security_crypto_web.Prelude.{
  ℕ, zero, suc, ◌+◌, ◌*◌, ◌/◌, ◌%◌, ◌^◌, ◌≤◌, ◌<◌, ◌≡◌, refl, sym, ap, ◌∙◌, leb, false, Bool-cases,
  inl, inr, some, List, [], ◌∷◌, arith, get_or, get_elem?, take_whole,
}
use Prim.Native.Nat.{bit_xor}
use mini_security_crypto_web.Prelude.ByteString.{big_endian, big_endian-lt}
use mini_security_crypto_web.Cipher.Aes.{IsBlock}
use mini_security_crypto_web.Cipher.Block.{
  CipherContext, aes, des, block_size, cipher_encrypt_block, block_size-pos,
}
use mini_security_crypto_web.Cipher.Ctr.{
  CtrContext, ctr_crypt_init, increment, ctr_next_keystream, with_keystream, ctr_crypt_update,
}
use mini_security_crypto_web.Cipher.Ctr.Counter.{
  length-increment, increment-All, big_endian-increment,
}

-- The counter that stands `k` blocks behind the number `start`, modulo 256 to the block size.
abbrev pub IsCounter : CipherContext → ℕ → ℕ → List ℕ → Type 0
IsCounter c start k counter =
    IsBlock (block_size c) counter × (big_endian counter ≡ (start + k) % 256 ^ block_size c)

-- The keystream byte at `j`: a byte of the cipher's image of the counter of its block.
abbrev pub IsStream : CipherContext → ℕ → ℕ → ℕ → Type 0
IsStream c start j byte =
    (counter : List ℕ) × IsCounter c start (j / block_size c) counter
    × (byte ≡ get_or (cipher_encrypt_block c counter) (j % block_size c) 0)

IsCounter-increment :
    (c : CipherContext) (start k : ℕ) (counter : List ℕ)
    → IsCounter c start k counter
    → IsCounter c start (suc k) (increment counter).0
IsCounter-increment c start k counter (h, e) = (
  (length-increment counter ∙ h.0, increment-All counter h.1),
  big_endian-increment counter h.1
      ∙ rw (h.0, e)
          (mod-add-mod (start + k) (256 ^ block_size c) 1
            ∙ ap (λ n. n % 256 ^ block_size c) (omega arith)),
)

-- A context that has made `k` blocks of keystream and is at `r` in the last of them, for the cipher
-- `c` from the number `start`.
record IsAt (c : CipherContext) (start k r : ℕ) (ctr : CtrContext) : Type 0 where
  same : ctr.cipher ≡ c
  pos : ctr.stream_pos ≡ r
  within : r ≤ block_size c
  next_counter : IsCounter c start k ctr.counter
  made :
      r < block_size c
      → (counter : List ℕ) × (before : ℕ) × (k ≡ suc before)
        × IsCounter c start before counter
        × (ctr.keystream ≡ cipher_encrypt_block c counter)

-- The context that reads a byte has one to read.
with_keystream-IsAt :
    (c : CipherContext) (start k r : ℕ) (ctr : CtrContext)
    → IsAt c start k r ctr
    → (k' : ℕ) × (r' : ℕ) × IsAt c start k' r' (with_keystream ctr)
      × (r' < block_size c)
      × (k' * block_size c + r' ≡ k * block_size c + r)
unfolding with_keystream ctr_next_keystream
with_keystream-IsAt c start k r ctr h = elim (Bool-cases (leb (block_size c) r)) [
  | inl full ↦
      let p = block_size-pos c in
      let w = h.within in
      let all : r ≡ block_size c = ground arith in
      (
        suc k,
        0,
        rw (h.same, h.pos, full)
            (record {
              same = refl;
              pos = refl;
              within = omega arith;
              next_counter = IsCounter-increment c start k ctr.counter h.next_counter;
              made = λ l. (ctr.counter, k, refl, h.next_counter, refl);
            }),
        p,
        rw all (grind arith),
      )
  | inr some_left ↦
      let o : leb (block_size ctr.cipher) ctr.stream_pos ≡ false = rw (h.same, h.pos) some_left in
      (k, r, rw o h, ground arith, refl)
]

block_index :
    (c : CipherContext) (k r : ℕ)
    → r < block_size c
    → ((k * block_size c + r) / block_size c ≡ k) × ((k * block_size c + r) % block_size c ≡ r)
unfolding block_size
block_index (aes keys) k r h = (omega arith, omega arith)
block_index (des keys) k r h = (omega arith, omega arith)

-- The byte that a ready context reads.
IsAt-IsStream :
    (c : CipherContext) (start k r j : ℕ) (ctr : CtrContext)
    → IsAt c start k r ctr
    → r < block_size c
    → k * block_size c + r ≡ j + block_size c
    → IsStream c start j (get_or ctr.keystream ctr.stream_pos 0)
IsAt-IsStream c start k r j ctr h l e =
    let (counter, before, q, is, stream) = h.made l in
    let place : before * block_size c + r ≡ j =
      omega (arith, ap (λ n. n * block_size c) q, suc-mul before (block_size c)) in
    let (block, byte) = block_index c before r l in
    (counter, rw (← place, block) is, rw (← place, byte, stream, h.pos) refl)

crypt-IsStream :
    (c : CipherContext) (start k r j : ℕ) (ctr : CtrContext) (input : List ℕ) (i b : ℕ)
    → IsAt c start k r ctr
    → k * block_size c + r ≡ j + block_size c
    → get_elem? input i ≡ some b
    → (byte : ℕ) × (get_elem? (ctr_crypt_update ctr input).1 i ≡ some (bit_xor b byte))
      × IsStream c start (j + i) byte
unfolding ctr_crypt_update
crypt-IsStream c start k r j ctr [] i b h e g = cc
crypt-IsStream c start k r j ctr (x ∷ input) zero b h e g =
    let (k', r', at, l, m) = with_keystream-IsAt c start k r ctr h in
    let ready = with_keystream ctr in
    let same : x ≡ b = cc in
    let here : j + 0 ≡ j = omega arith in
    (
      get_or ready.keystream ready.stream_pos 0,
      rw same refl,
      rw here (IsAt-IsStream c start k' r' j ready at l (m ∙ e)),
    )
crypt-IsStream c start k r j ctr (x ∷ input) (suc i) b h e g =
    let (k', r', at, l, m) = with_keystream-IsAt c start k r ctr h in
    let ready = with_keystream ctr in
    let next : CtrContext = record ready { stream_pos = ready.stream_pos + 1 } in
    let moved : IsAt c start k' (r' + 1) next = record {
      same = at.same;
      pos = ap (λ n. n + 1) at.pos;
      within = omega arith;
      next_counter = at.next_counter;
      made = λ less. at.made l;
    } in
    let later : suc j + i ≡ j + suc i = omega arith in
    rw (← later)
      (crypt-IsStream c start k' (r' + 1) (suc j) next input i b moved (omega (arith, m, e)) g)

-- From a fresh context, `ctr_crypt_update` writes for the byte at any index that byte XOR a byte of
-- the cipher's image of a counter: the byte at the index modulo the block size, of the block of
-- bytes whose big-endian number is the nonce's plus the number of whole blocks before the index,
-- modulo 256 to the power of the block size. The nonce is a block of bytes; the cipher is any of
-- the two, with any round keys.
pub ctr_crypt_update-IsStream :
    (c : CipherContext) (nonce input : List ℕ) (i b : ℕ)
    → IsBlock (block_size c) nonce
    → get_elem? input i ≡ some b
    → (byte : ℕ) × (get_elem? (ctr_crypt_update (ctr_crypt_init c nonce) input).1 i
        ≡ some (bit_xor b byte))
      × IsStream c (big_endian nonce) i byte
unfolding ctr_crypt_init
ctr_crypt_update-IsStream c nonce input i b h g =
    let index : 0 + i ≡ i = omega arith in
    let first : 0 * block_size c + block_size c ≡ 0 + block_size c =
      omega (arith, zero-mul (block_size c)) in
    rw index at (
      crypt-IsStream c (big_endian nonce) 0 (block_size c) 0 (ctr_crypt_init c nonce) input i b
        fresh first g)
  where
    start_here : big_endian nonce + 0 ≡ big_endian nonce
    start_here = omega arith

    fresh : IsAt c (big_endian nonce) 0 (block_size c) (ctr_crypt_init c nonce)
    fresh = record {
      same = refl;
      pos = refl;
      within = omega arith;
      next_counter =
          rw (take_whole (block_size c) nonce h.0, start_here)
            (
              h,
              sym (
                  mod-eq_of_lt
                    (rw (ap (λ n. 256 ^ n) (sym h.0)) (omega (arith, big_endian-lt nonce h.1)))),
            );
      made = λ less. absurd (omega arith);
    }
