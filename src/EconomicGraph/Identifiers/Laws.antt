-- ===== src/EconomicGraph/Identifiers/Laws.antt =====
-- The normal form of a CIK (packages/economic_graph/service.py, `normalize_identifier`).
use market_intelligence_lab.Prelude.{
  ℕ, zero, suc, ◌+◌, ◌-◌, ◌≤◌, ◌≡◌, ◌∙◌, sym, ap, inl, inr, true, false, not, ◌||◌, none, some,
  List, [], ◌∷◌, length, ltb, ◌==◌, every, arith, Bool-cases, refl,
}
use mathlib.Core.Option.{some-injective}
use market_intelligence_lab.EconomicGraph.Identifiers.{
  PythonText, cik, zeros, zfill, strip, lstrip, rstrip, no_text, all_digits, normalize_identifier,
  normalize_digits, without_dashes, remove_prefix, cik_prefix,
}

-- What Python documents of `isdigit`: "0" passes, and no space, "-" or "C" does.
pub record IsDigitTest (text : PythonText) : Type 0 where
  pub zero_digit : text.is_digit 48 ≡ true
  pub not_space : (c : ℕ) → text.is_digit c ≡ true → text.is_space c ≡ false
  pub not_dash : text.is_digit 45 ≡ false
  pub not_letter : text.is_digit 67 ≡ false

length-zeros : (n : ℕ) (cs : List ℕ) → length (zeros n cs) ≡ n + length cs
length-zeros zero cs = omega arith
length-zeros (suc n) cs = omega (arith, length-zeros n cs)

module _ (text : PythonText) (python : IsDigitTest text) where
  every-zeros :
      (n : ℕ) (cs : List ℕ)
      → every text.is_digit cs ≡ true
      → every text.is_digit (zeros n cs) ≡ true
  every-zeros zero cs h = h
  every-zeros (suc n) cs h = rw python.zero_digit (every-zeros n cs h)

  lstrip-digits : (cs : List ℕ) → every text.is_digit cs ≡ true → lstrip text cs ≡ cs
  lstrip-digits [] h = refl
  lstrip-digits (c ∷ cs) h =
      let digit : text.is_digit c ≡ true = ground arith in rw (python.not_space c digit) refl

  rstrip-digits : (cs : List ℕ) → every text.is_digit cs ≡ true → rstrip text cs ≡ cs
  rstrip-digits [] h = refl
  rstrip-digits (c ∷ cs) h =
      let digit : text.is_digit c ≡ true = ground arith in
      let rest : every text.is_digit cs ≡ true = ground arith in
      rw (python.not_space c digit) (ap (λ l. c ∷ l) (rstrip-digits cs rest))

  strip-digits : (cs : List ℕ) → every text.is_digit cs ≡ true → strip text cs ≡ cs
  strip-digits cs h = ap (rstrip text) (lstrip-digits cs h) ∙ rstrip-digits cs h

  not_code : (c d : ℕ) → text.is_digit d ≡ false → text.is_digit c ≡ true → (c == d) ≡ false
  not_code c d h k = ground arith

  without_dashes-digits : (cs : List ℕ) → every text.is_digit cs ≡ true → without_dashes cs ≡ cs
  without_dashes-digits [] h = refl
  without_dashes-digits (c ∷ cs) h =
      let digit : text.is_digit c ≡ true = ground arith in
      let rest : every text.is_digit cs ≡ true = ground arith in
      rw (not_code c 45 python.not_dash digit) (ap (λ l. c ∷ l) (without_dashes-digits cs rest))

  remove_prefix-digits :
      (cs : List ℕ) → every text.is_digit cs ≡ true → remove_prefix cik_prefix cs ≡ cs
  remove_prefix-digits [] h = refl
  remove_prefix-digits (c ∷ cs) h =
      let digit : text.is_digit c ≡ true = ground arith in
      let other : (67 == c) ≡ false = ground (arith, not_code c 67 python.not_letter digit) in
      rw other refl

  normalize_digits-eq-some :
      (digits normal : List ℕ)
      → normalize_digits text digits ≡ some normal
      → (every text.is_digit digits ≡ true) × (length digits ≤ 10) × (normal ≡ zfill 10 digits)
  normalize_digits-eq-some digits normal h =
      elim (Bool-cases (not (all_digits text digits) || ltb 10 (length digits))) [
        | inl e ↦ let bad : none ≡ some normal = (rw e at h) in cc
        | inr e ↦ (ground arith, ground arith, sym (some-injective _ _ (rw e at h)))
      ]

  normal-cik :
      (cs : List ℕ)
      → length cs ≡ 10
      → every text.is_digit cs ≡ true
      → normalize_identifier text cik cs ≡ some cs
  unfolding normalize_identifier
  normal-cik [] ten digits = ground arith
  normal-cik (c ∷ cs) ten digits =
      let plain : without_dashes (remove_prefix cik_prefix (c ∷ cs)) ≡ c ∷ cs =
        ap without_dashes (remove_prefix-digits (c ∷ cs) digits)
        ∙ without_dashes-digits (c ∷ cs) digits in
      let padding : 10 - length (c ∷ cs) ≡ 0 = omega (arith, ten) in
      let short : ltb 10 (length (c ∷ cs)) ≡ false = ground (arith, ten) in
      rw (strip-digits (c ∷ cs) digits) (rw (plain) (rw (digits, short, padding) refl))

  -- A normal form of a CIK has ten characters, all digits, and is its own normal form.
  pub normalize_identifier-cik :
      (value normal : List ℕ)
      → normalize_identifier text cik value ≡ some normal
      → (length normal ≡ 10)
        × (every text.is_digit normal ≡ true)
        × (normalize_identifier text cik normal ≡ some normal)
  unfolding normalize_identifier
  normalize_identifier-cik value normal h = elim (Bool-cases (no_text (strip text value))) [
    | inl e ↦ let bad : none ≡ some normal = (rw e at h) in cc
    | inr e ↦
        let (digits, few, same) =
          normalize_digits-eq-some (without_dashes (remove_prefix cik_prefix (strip text value)))
            normal (rw e at h) in
        let ten : length normal ≡ 10 = omega (
          arith,
          ap length same,
          length-zeros (10 - length (without_dashes (remove_prefix cik_prefix (strip text value))))
              (without_dashes (remove_prefix cik_prefix (strip text value))),
        ) in
        let all : every text.is_digit normal ≡ true = rw same (every-zeros _ _ digits) in
        (ten, all, normal-cik normal ten all)
  ]
