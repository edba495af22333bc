-- ===== src/Update/Directive/Validity.antt =====
-- src/update/directive.js, src/update/manager.js: what a valid directive is, apart from the code that tests it.
use sidewisp_plugin.Prelude.{
  All, all, length, ◌||◌, ◌&&◌, ◌↔◌, leb, List, ap, sym, ◌∙◌, ℕ, ◌≤◌, ◌≡◌, refl, ◌⊎◌, inl, inr,
  Bool, true, Option, none, some, [], ◌∷◌, ◌++◌, arith, eqb, is_some, Bool-cases,
}
use sidewisp_plugin.Prelude.Codes.{
  Text, same_text→eq, same_text_refl, codes, is_digit, is_lower, is_upper,
}
use sidewisp_plugin.Update.Version.{span_digits, parse_number, parse_version}
use sidewisp_plugin.Update.Directive.{
  is_version, is_hex, is_revision, Directive, strip_prefix, strip_v, spec_prefix, checked_version,
  target_spec_version, same_some, or_empty, is_delay, valid_update_directive,
  valid_managed_directive,
}

strip_prefix-append : (p s r : Text) → strip_prefix p s ≡ some r → s ≡ p ++ r
unfolding strip_prefix
strip_prefix-append [] s r h = ground arith
strip_prefix-append (c ∷ p) [] r h = cc
strip_prefix-append (c ∷ p) (d ∷ s) r h = ground (arith, strip_prefix-append p s r)

-- A text with the optional `v` in front.
abbrev pub IsTagged : Text → Text → Type 0
IsTagged version tag = (tag ≡ version) ⊎ (tag ≡ b'v' ∷ version)

strip_v-IsTagged : (tag : Text) → IsTagged (strip_v tag) tag
strip_v-IsTagged [] = inl refl
strip_v-IsTagged (c ∷ s) = elim (Bool-cases (eqb c b'v')) [
  | inl v ↦ inr (ground arith)
  | inr other ↦ inl (ground arith)
]

-- The target of a directive: a version that parses, which its specification names, after the
-- repository's address and an optional `v`.
pub record IsTarget (d : Directive) : Type 0 where
  pub version : Text
  pub tag : Text
  pub target : d.target_version ≡ some version
  pub spec : or_empty d.target_spec ≡ spec_prefix ++ tag
  pub tagged : IsTagged version tag
  pub parses : is_some (parse_version version) ≡ true

checked-inverse :
    (o : Option Text) (v : Text)
    → checked_version o ≡ some v
    → (tag : Text) × (o ≡ some tag) × (strip_v tag ≡ v) × (is_some (parse_version v) ≡ true)
checked-inverse none v h = absurd (ground arith)
checked-inverse (some tag) v h = (tag, refl, ground arith, ground arith)

spec-IsTarget :
    (d : Directive) (v : Text)
    → d.target_version ≡ some v
    → target_spec_version (or_empty d.target_spec) ≡ some v
    → IsTarget d
unfolding target_spec_version
spec-IsTarget d v t h =
    let (tag, stripped, same, parses) =
      checked-inverse (strip_prefix spec_prefix (or_empty d.target_spec)) v h in
    record {
      version = v;
      tag = tag;
      target = t;
      spec = strip_prefix-append spec_prefix (or_empty d.target_spec) tag stripped;
      tagged = rw same at (strip_v-IsTagged tag);
      parses = parses;
    }

same_some→eq : (a b : Option Text) → same_some a b ≡ true → (v : Text) × (a ≡ some v) × (b ≡ some v)
unfolding same_some
same_some→eq none b h = absurd (ground arith)
same_some→eq (some a) none h = absurd (ground arith)
same_some→eq (some a) (some b) h = (a, refl, ground (arith, same_text→eq a b))

strip_prefix-back : (p r : Text) → strip_prefix p (p ++ r) ≡ some r
unfolding strip_prefix
strip_prefix-back [] r = refl
strip_prefix-back (c ∷ p) r = ground (arith, strip_prefix-back p r)

-- No version starts with a `v`.
parse_version-v : (s : Text) → parse_version (b'v' ∷ s) ≡ none
unfolding parse_version parse_number span_digits
parse_version-v s = refl

strip_v-version : (v : Text) → is_some (parse_version v) ≡ true → strip_v v ≡ v
strip_v-version [] h = refl
strip_v-version (c ∷ s) h = elim (Bool-cases (eqb c b'v')) [
  | inl e ↦ absurd (ground (arith, parse_version-v s))
  | inr e ↦ rw e refl
]

strip_v-tag : (v tag : Text) → IsTagged v tag → is_some (parse_version v) ≡ true → strip_v tag ≡ v
strip_v-tag v tag (inl e) h = ap strip_v e ∙ strip_v-version v h
strip_v-tag v tag (inr e) h = rw e refl

target-version :
    (d : Directive) (t : IsTarget d) → target_spec_version (or_empty d.target_spec) ≡ some t.version
unfolding target_spec_version
target-version d t =
    rw
      (
        t.spec,
        strip_prefix-back spec_prefix t.tag,
        strip_v-tag t.version t.tag t.tagged t.parses,
        t.parses,
      )
      refl

IsTarget-same :
    (d : Directive)
    → IsTarget d
    → (is_version d.target_version ≡ true)
      × (same_some (target_spec_version (or_empty d.target_spec)) d.target_version ≡ true)
unfolding is_version same_some
IsTarget-same d t = rw (target-version d t, t.target) (t.parses, same_text_refl t.version)

-- What `validUpdateDirective` asks for.
pub record IsValid (d : Directive) : Type 0 where
  pub schema : d.schema ≡ some (codes "sidewisp.plugin-update.v1")
  pub target : IsTarget d
  pub delay : (n : ℕ) × (d.restart_delay_seconds ≡ some n) × (30 ≤ n) × (n ≤ 3600)

delay_iff : (o : Option ℕ) → (is_delay o ≡ true) ↔ ((n : ℕ) × (o ≡ some n) × (30 ≤ n) × (n ≤ 3600))
unfolding is_delay
delay_iff none =
    (λ h. absurd (ground arith), λ h. absurd (let (n, e, low, high) = h in ground (arith, e)))
delay_iff (some n) = (
  λ h. (n, refl, ground arith, ground arith),
  λ h. let (m, e, low, high) = h in ground (arith, e, low, high),
)

-- A directive is valid just when it is of the schema, names one version twice, in its target and in its
-- specification, and waits between 30 and 3600 seconds.
pub valid_update_directive_iff : (d : Directive) → (valid_update_directive d ≡ true) ↔ IsValid d
unfolding valid_update_directive same_some
valid_update_directive_iff d = (
  λ h.
      let (v, spec, target) =
        same_some→eq (target_spec_version (or_empty d.target_spec)) d.target_version
          (ground arith) in
      let (s, one, other) =
        same_some→eq d.schema (some (codes "sidewisp.plugin-update.v1")) (ground arith) in
      record {
        schema = one ∙ sym other;
        target = spec-IsTarget d v target spec;
        delay = (delay_iff d.restart_delay_seconds).0 (ground arith);
      },
  λ v. ground (
    arith,
    v.schema,
    same_text_refl (codes "sidewisp.plugin-update.v1"),
    IsTarget-same d v.target,
    (delay_iff d.restart_delay_seconds).1 v.delay,
  ),
)

all-All :
    {A : Type 0} (P : A → Type 0) (p : A → Bool)
    → ((x : A) → (p x ≡ true) ↔ P x)
    → (xs : List A) → (all p xs ≡ true) ↔ All P xs
all-All P p f [] = (λ h. tt, λ h. refl)
all-All P p f (x ∷ xs) = (
  λ h. ((f x).0 (ground arith), (all-All P p f xs).0 (ground arith)),
  λ h. ground (arith, (f x).1 h.0, (all-All P p f xs).1 h.1),
)

-- A digit, or a letter from a to f
abbrev pub IsHexDigit : ℕ → Type 0
IsHexDigit c = ((48 ≤ c) × (c ≤ 57)) ⊎ ((97 ≤ c) × (c ≤ 102))

-- A letter, a digit, an underscore or a dash
abbrev pub IsWordCode : ℕ → Type 0
IsWordCode c =
    ((65 ≤ c) × (c ≤ 90))
    ⊎ (((97 ≤ c) × (c ≤ 122)) ⊎ (((48 ≤ c) × (c ≤ 57)) ⊎ ((c ≡ 95) ⊎ (c ≡ 45))))

-- A digest of SHA-256
abbrev pub IsDigest : Text → Type 0
IsDigest s = (length s ≡ 64) × All IsHexDigit s

abbrev pub IsRevision : Text → Type 0
IsRevision s = (1 ≤ length s) × ((length s ≤ 80) × All IsWordCode s)

pub is_hex_iff : (s : Text) → (is_hex 64 s ≡ true) ↔ IsDigest s
unfolding is_hex
is_hex_iff s =
    let digits =
      all-All IsHexDigit (λ c. is_digit c || (leb b'a' c && leb c b'f'))
        (λ c. (λ h. ground arith, λ h. ground arith)) s in
    (λ h. (ground arith, digits.0 (ground arith)), λ h. ground (arith, digits.1 h.1))

is_revision_iff : (s : Text) → (is_revision s ≡ true) ↔ IsRevision s
unfolding is_revision
is_revision_iff s =
    let words =
      all-All IsWordCode (λ c. is_upper c || is_lower c || is_digit c || eqb c b'_' || eqb c b'-')
        (λ c. (λ h. ground arith, λ h. ground arith)) s in
    (
      λ h. (ground arith, (ground arith, words.0 (ground arith))),
      λ h. ground (arith, words.1 h.1.1),
    )

-- What `validManagedDirective` asks for.
pub record IsManaged (d : Directive) : Type 0 where
  pub valid : IsValid d
  pub digest : IsDigest (or_empty d.sha256)
  pub revision : IsRevision (or_empty d.revision)
  pub mandatory : d.mandatory ≡ true

pub valid_managed_directive_iff : (d : Directive) → (valid_managed_directive d ≡ true) ↔ IsManaged d
unfolding valid_managed_directive
valid_managed_directive_iff d = (
  λ h. record {
    valid = (valid_update_directive_iff d).0 (ground arith);
    digest = (is_hex_iff (or_empty d.sha256)).0 (ground arith);
    revision = (is_revision_iff (or_empty d.revision)).0 (ground arith);
    mandatory = ground arith;
  },
  λ m. ground (
    arith,
    (valid_update_directive_iff d).1 m.valid,
    (is_hex_iff (or_empty d.sha256)).1 m.digest,
    (is_revision_iff (or_empty d.revision)).1 m.revision,
    m.mandatory,
  ),
)
