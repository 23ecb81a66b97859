-- ===== src/EconomicGraph/Identifiers.antt =====
-- Names and identifiers in their normal form (packages/economic_graph/service.py, `normalize_name`,
-- `normalize_identifier`). A text is a list of code points; Python's tests on characters and its
-- changes of case are parameters.
pub mod Laws
use market_intelligence_lab.Prelude.{
  ℕ, zero, suc, ◌-◌, Bool, true, false, not, ◌&&◌, ◌||◌, Option, none, some, List, [], ◌∷◌, ◌++◌,
  length, ltb, leb, ◌==◌, if◌then◌else◌, every, where_rows, drop,
}

-- `isspace`, which `strip` and `\s` use, `isdigit`, `upper` and `casefold`.
pub record PythonText : Type 0 where
  pub is_space : ℕ → Bool
  pub is_digit : ℕ → Bool
  pub upper : List ℕ → List ℕ
  pub casefold : List ℕ → List ℕ

pub data Namespace : Type 0 where
  asset_id ticker exchange cik lei figi iso_country region fips : Namespace
  provider_series facility_source_id : Namespace
  unsupported_namespace : ℕ → Namespace

-- Which of the rules of `normalize_identifier` a namespace has.
pub data Rule : Type 0 where
  refuse ten_digits upper_case provider_pair fold : Rule

abbrev pub rule_of : Namespace → Rule
rule_of cik = ten_digits
rule_of ticker = upper_case
rule_of exchange = upper_case
rule_of lei = upper_case
rule_of figi = upper_case
rule_of iso_country = upper_case
rule_of fips = upper_case
rule_of provider_series = provider_pair
rule_of (unsupported_namespace n) = refuse
rule_of _ = fold

abbrev pub no_text : List ℕ → Bool
no_text [] = true
no_text (c ∷ cs) = false

abbrev pub starts_with : List ℕ → List ℕ → Bool
starts_with [] cs = true
starts_with (p ∷ ps) [] = false
starts_with (p ∷ ps) (c ∷ cs) = p == c && starts_with ps cs

-- `str.removeprefix`
abbrev pub remove_prefix : List ℕ → List ℕ → List ℕ
remove_prefix p cs = if starts_with p cs then drop (length p) cs else cs

-- "CIK"
abbrev pub cik_prefix : List ℕ
cik_prefix = 67 ∷ 73 ∷ 75 ∷ []

-- `replace("-", "")`
abbrev pub without_dashes : List ℕ → List ℕ
without_dashes cs = where_rows (λ c. not (c == 45)) cs

-- `n` characters "0" before a text.
abbrev pub zeros : ℕ → List ℕ → List ℕ
zeros zero cs = cs
zeros (suc n) cs = 48 ∷ zeros n cs

-- `str.zfill` of a text without a sign.
abbrev pub zfill : ℕ → List ℕ → List ℕ
zfill width cs = zeros (width - length cs) cs

-- `partition(":")`, or `none` without a separator.
abbrev pub partition : List ℕ → Option (List ℕ × List ℕ)
partition [] = none
partition (c ∷ cs) = if c == 58 then some ([], cs) else before_rest c (partition cs)
  where
    before_rest : ℕ → Option (List ℕ × List ℕ) → Option (List ℕ × List ℕ)
    before_rest c none = none
    before_rest c (some (before, after)) = some (c ∷ before, after)

-- `[a-z0-9]`
abbrev is_name_letter : ℕ → Bool
is_name_letter c = (leb 97 c && leb c 122) || (leb 48 c && leb c 57)

-- `re.sub(r"[^a-z0-9]+", " ", …)`; the flag tells whether the character before was replaced.
abbrev squash : Bool → List ℕ → List ℕ
squash in_run [] = []
squash in_run (c ∷ cs) =
    let kept = squash false cs in
    let rest = squash true cs in
    if is_name_letter c then c ∷ kept else if in_run then rest else 32 ∷ rest

module _ (text : PythonText) where
  abbrev pub lstrip : List ℕ → List ℕ
  lstrip [] = []
  lstrip (c ∷ cs) = let rest = lstrip cs in if text.is_space c then rest else c ∷ cs

  abbrev pub rstrip : List ℕ → List ℕ
  rstrip [] = []
  rstrip (c ∷ cs) = let rest = rstrip cs in if text.is_space c && no_text rest then [] else c ∷ rest

  abbrev pub strip : List ℕ → List ℕ
  strip cs = rstrip (lstrip cs)

  abbrev pub all_digits : List ℕ → Bool
  all_digits cs = not (no_text cs) && every text.is_digit cs

  abbrev pub normalize_digits : List ℕ → Option (List ℕ)
  normalize_digits digits =
      if not (all_digits digits) || ltb 10 (length digits) then none else some (zfill 10 digits)

  abbrev normalize_pair : Option (List ℕ × List ℕ) → Option (List ℕ)
  normalize_pair none = none
  normalize_pair (some (provider, series_id)) =
      if no_text provider || no_text series_id
      then none
      else some (text.casefold provider ++ (58 ∷ strip series_id))

  abbrev pub normalize_by : Rule → List ℕ → Option (List ℕ)
  normalize_by refuse cleaned = none
  normalize_by ten_digits cleaned =
      normalize_digits (without_dashes (remove_prefix cik_prefix cleaned))
  normalize_by upper_case cleaned =
      some (text.upper (where_rows (λ c. not (text.is_space c)) cleaned))
  normalize_by provider_pair cleaned = normalize_pair (partition cleaned)
  normalize_by fold cleaned = some (text.casefold cleaned)

  unfoldable pub normalize_identifier : Namespace → List ℕ → Option (List ℕ)
  normalize_identifier namespace value =
      let cleaned = strip value in
      if no_text cleaned then none else normalize_by (rule_of namespace) cleaned

  unfoldable pub normalize_name : List ℕ → Option (List ℕ)
  normalize_name value =
      let normalized = strip (squash false (text.casefold value)) in
      if no_text normalized then none else some normalized
