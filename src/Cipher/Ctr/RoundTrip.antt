-- ===== src/Cipher/Ctr/RoundTrip.antt =====
-- ctr_crypt_update run twice, and over several updates.
use mini_security_crypto_web.Prelude.{ℕ, ◌+◌, ◌≡◌, refl, List, [], ◌∷◌, ◌++◌, get_or}
use mini_security_crypto_web.Prelude.Xor.{bit_xor_twice}
use mini_security_crypto_web.Cipher.Ctr.{CtrContext, with_keystream, ctr_crypt_update}

-- From one context, crypting what was crypted writes the input, and both leave the same context,
-- whatever the cipher and the length.
pub ctr_crypt_update_twice :
    (ctr : CtrContext) (input : List ℕ)
    → ctr_crypt_update ctr (ctr_crypt_update ctr input).1 ≡ ((ctr_crypt_update ctr input).0, input)
unfolding ctr_crypt_update
ctr_crypt_update_twice ctr [] = refl
ctr_crypt_update_twice ctr (b ∷ input) =
    let ready = with_keystream ctr in
    let next : CtrContext = record ready { stream_pos = ready.stream_pos + 1 } in
    rw
      (
        ctr_crypt_update_twice next input,
        bit_xor_twice b (get_or ready.keystream ready.stream_pos 0),
      )
      refl

-- Crypting in two updates writes what one update of all the bytes writes, and leaves the same
-- context.
pub ctr_crypt_update-append :
    (ctr : CtrContext) (a b : List ℕ)
    → let (ctr1, out1) = ctr_crypt_update ctr a in
      let (ctr2, out2) = ctr_crypt_update ctr1 b in
      ctr_crypt_update ctr (a ++ b) ≡ (ctr2, out1 ++ out2)
unfolding ctr_crypt_update
ctr_crypt_update-append ctr [] b = refl
ctr_crypt_update-append ctr (x ∷ a) b =
    let ready = with_keystream ctr in
    let next : CtrContext = record ready { stream_pos = ready.stream_pos + 1 } in
    rw (ctr_crypt_update-append next a b) refl
