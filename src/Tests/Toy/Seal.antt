-- ===== src/Tests/Toy/Seal.antt =====
-- A cipher for the runs of src/crypto: it writes the key, the nonce and the associated data in
-- front of the message, and refuses a ciphertext that begins otherwise.
use secret_management.Prelude.{
  some_inj, ℕ, zero, suc, ◌≡◌, refl, sym, ap, ◌∙◌, Option, none, some, [], ◌∷◌, ◌++◌, Bytes,
  IsBytes, eqb, true, false, inl, inr, Option-cases, append_inj, arith,
}
use secret_management.Crates.{Aead, IsLawfulAead, IsBinding}

-- In front of `rest`: a number in unary, and a list of numbers, each with its end marked.
abbrev unary : ℕ → Bytes → Bytes
unary zero rest = 0 ∷ rest
unary (suc n) rest = 1 ∷ unary n rest

abbrev pub marked : Bytes → Bytes → Bytes
marked [] rest = 0 ∷ rest
marked (n ∷ ns) rest = 1 ∷ unary n (marked ns rest)

-- What a ciphertext has after what it should begin with.
abbrev skip_unary : ℕ → Bytes → Option Bytes
skip_unary n [] = none
skip_unary zero (c ∷ cs) = elim (eqb c 0) [ true ↦ some cs | false ↦ none ]
skip_unary (suc n) (c ∷ cs) = elim (eqb c 1) [ true ↦ skip_unary n cs | false ↦ none ]

abbrev skip_rest : Option Bytes → (Bytes → Option Bytes) → Option Bytes
skip_rest none f = none
skip_rest (some c) f = f c

abbrev skip : Bytes → Bytes → Option Bytes
skip ns [] = none
skip [] (c ∷ cs) = elim (eqb c 0) [ true ↦ some cs | false ↦ none ]
skip (n ∷ ns) (c ∷ cs) = elim (eqb c 1) [
  | true ↦ skip_rest (skip_unary n cs) (skip ns)
  | false ↦ none
]

skip_unary_same : (n : ℕ) (r : Bytes) → skip_unary n (unary n r) ≡ some r
skip_unary_same zero r = refl
skip_unary_same (suc n) r = skip_unary_same n r

skip_same : (ns r : Bytes) → skip ns (marked ns r) ≡ some r
skip_same [] r = refl
skip_same (n ∷ ns) r = rw (skip_unary_same n (marked ns r)) (skip_same ns r)

-- Another number is not skipped, and neither is another list of the same length.
skip_unary_other : (m n : ℕ) (r s : Bytes) → skip_unary m (unary n r) ≡ some s → (m ≡ n) × (r ≡ s)
skip_unary_other zero zero r s e = (refl, cc)
skip_unary_other zero (suc n) r s e = cc
skip_unary_other (suc m) zero r s e = cc
skip_unary_other (suc m) (suc n) r s e = let (p, q) = skip_unary_other m n r s e in (ap suc p, q)

skip_other : (ms ns r s : Bytes) → skip ms (marked ns r) ≡ some s → ms ≡ ns
skip_other [] [] r s e = refl
skip_other [] (n ∷ ns) r s e = cc
skip_other (m ∷ ms) [] r s e = cc
skip_other (m ∷ ms) (n ∷ ns) r s e = elim (Option-cases (skip_unary m (unary n (marked ns r)))) [
  | inl p ↦ cc (rw p at e)
  | inr (t, p) ↦
      let (head, tail) = skip_unary_other m n (marked ns r) t p in
      cc (head, skip_other ms ns r s (rw (p, ← tail) at e))
]

unary-IsBytes : (n : ℕ) (r : Bytes) → IsBytes r → IsBytes (unary n r)
unary-IsBytes zero r h = (omega arith, h)
unary-IsBytes (suc n) r h = (omega arith, unary-IsBytes n r h)

marked-IsBytes : (ns r : Bytes) → IsBytes r → IsBytes (marked ns r)
marked-IsBytes [] r h = (omega arith, h)
marked-IsBytes (n ∷ ns) r h = (omega arith, unary-IsBytes n (marked ns r) (marked-IsBytes ns r h))

abbrev pub toy_aead : Aead Bytes
toy_aead = record {
  new = λ key. key;
  encrypt = λ key nonce msg aad. some (marked (key ++ (nonce ++ aad)) msg);
  decrypt = λ key nonce c aad. skip (key ++ (nonce ++ aad)) c;
}

pub toy_aead-IsLawfulAead : IsLawfulAead toy_aead
toy_aead-IsLawfulAead = record {
  opens = λ key nonce msg aad c e.
      ap (skip (key ++ (nonce ++ aad))) (sym (some_inj e)) ∙ skip_same (key ++ (nonce ++ aad)) msg;
  ciphertext_IsBytes =
      λ key nonce msg aad c h e. rw (← some_inj e) (marked-IsBytes (key ++ (nonce ++ aad)) msg h);
  seals = λ key nonce msg aad p q r s. (marked (key ++ (nonce ++ aad)) msg, refl);
}

same_aad :
    (key nonce aad aad' : Bytes) → key ++ (nonce ++ aad') ≡ key ++ (nonce ++ aad) → aad ≡ aad'
same_aad key nonce aad aad' e =
    sym
      (append_inj nonce nonce aad' aad refl
        (append_inj key key (nonce ++ aad') (nonce ++ aad) refl e).1).1

pub toy_aead-IsBinding : IsBinding toy_aead
toy_aead-IsBinding = record {
  rejects = λ key nonce msg aad aad' c e other.
      elim (Option-cases (skip (key ++ (nonce ++ aad')) c)) [
        | inl refused ↦ refused
        | inr (m, opened) ↦ absurd (
            other (
              same_aad key nonce aad aad' (
                skip_other (key ++ (nonce ++ aad')) (key ++ (nonce ++ aad)) msg m
                  (rw (← some_inj e) at opened))))
      ];
}
