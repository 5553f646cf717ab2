-- ===== src/Rsa/Encoding.antt =====
-- PKCS#1 v1.5 encoding in mini-crypto-basic/src/asymmetric_cipher.c. The padding that `rand` draws,
-- zeros thrown away, is an argument: it stands for bytes that the code does not choose.
use mathlib.Core.List.{append_assoc}
use mini_security_crypto_web.Prelude.{
  ℕ, ◌+◌, ◌-◌, ◌≤◌, ◌<◌, ◌≡◌, ap, sym, ◌∙◌, ◌==◌, ltb, leb, ◌||◌, if◌then◌else◌, Option, none, some,
  List, [], ◌∷◌, ◌++◌, length, length-append, drop, drop-append_exact, get_or, All, arith,
}

-- What is written to `em`; nothing where the message is too long.
unfoldable pub pkcs1_v15_encode : List ℕ → List ℕ → ℕ → Option (List ℕ)
pkcs1_v15_encode padding msg em_len =
    if ltb em_len (length msg + 11) then none else some (0x00 ∷ 0x02 ∷ padding ++ 0x00 ∷ msg)

-- The loop that looks for the separator: the index behind it, or the length if there is none.
unfoldable pub after_separator : ℕ → List ℕ → ℕ
after_separator i [] = i
after_separator i (b ∷ rest) = if b == 0x00 then i + 1 else after_separator (i + 1) rest

unfoldable pub pkcs1_v15_decode : List ℕ → Option (List ℕ)
unfolding after_separator
pkcs1_v15_decode em =
    let i = after_separator 2 (drop 2 em) in
    if ltb (length em) 11
    then none
    else if get_or em 0 0 == 0x00
    then if get_or em 1 0 == 0x02
      then if leb (length em) i || ltb i 10 then none else some (drop i em)
      else none
    else none

-- The padding that the encoder needs: all but the message and three bytes, none of them zero.
abbrev pub IsPadding : List ℕ → List ℕ → ℕ → Type 0
IsPadding padding msg em_len = (length padding ≡ em_len - length msg - 3) × All (λ b. 0 < b) padding

separator_found :
    (padding msg : List ℕ) (i : ℕ)
    → All (λ b. 0 < b) padding
    → after_separator i (padding ++ 0x00 ∷ msg) ≡ i + length padding + 1
unfolding after_separator
separator_found [] msg i h = omega arith
separator_found (b ∷ padding) msg i h = ground (arith, separator_found padding msg (i + 1) h.1)

module _ (padding msg : List ℕ) (em_len : ℕ) (fits : length msg + 11 ≤ em_len)
    (drawn : IsPadding padding msg em_len) where
  encoded : pkcs1_v15_encode padding msg em_len ≡ some (0x00 ∷ 0x02 ∷ padding ++ 0x00 ∷ msg)
  unfolding pkcs1_v15_encode
  encoded = ground arith

  whole_length : length (0x00 ∷ 0x02 ∷ padding ++ 0x00 ∷ msg) ≡ em_len
  whole_length = omega (arith, length-append padding (0x00 ∷ msg), drawn.0)

  rest_of : drop (2 + length padding + 1) (0x00 ∷ 0x02 ∷ padding ++ 0x00 ∷ msg) ≡ msg
  rest_of =
      ap (drop (2 + length padding + 1))
        (sym (append_assoc (0x00 ∷ 0x02 ∷ padding) (0x00 ∷ []) msg))
      ∙ drop-append_exact (2 + length padding + 1) ((0x00 ∷ 0x02 ∷ padding) ++ 0x00 ∷ []) msg
          (omega (arith, length-append padding (0x00 ∷ [])))

  -- Where the message leaves room for 11 bytes and the padding drawn has no zero, decoding what was
  -- encoded returns the message if it is not empty, and refuses it if it is.
  pub pkcs1_v15_decode-pkcs1_v15_encode :
      (em : List ℕ)
      → pkcs1_v15_encode padding msg em_len ≡ some em
      → (length em ≡ em_len) × (pkcs1_v15_decode em ≡ (if length msg == 0 then none else some msg))
  unfolding pkcs1_v15_decode
  pkcs1_v15_decode-pkcs1_v15_encode em e =
      let same : 0x00 ∷ 0x02 ∷ padding ++ 0x00 ∷ msg ≡ em = cc (encoded, e) in
      rw (← same) (
        whole_length,
        rw (separator_found padding msg 2 drawn.1, rest_of)
            (ground (arith, whole_length, length-append padding (0x00 ∷ msg), drawn.0)),
      )
