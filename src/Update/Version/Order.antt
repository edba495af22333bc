-- ===== src/Update/Version/Order.antt =====
-- src/update/directive.js: being newer is a strict order.
use sidewisp_plugin.Prelude.{◌≡◌, refl, true, false, Option, none, some, List, [], ◌∷◌, arith}
use sidewisp_plugin.Prelude.Codes.{Text, same_text→eq, same_text_refl, text_gt_asymm, text_gt_trans}
use sidewisp_plugin.Update.Version.{
  Version, less, greater, compare_identifier, compare_identifiers, compare_prerelease, is_newer,
  parse_version, is_newer_version, newer_parsed,
}

identifier_asymm : (l r : Text) → compare_identifier l r ≡ greater → compare_identifier r l ≡ less
unfolding compare_identifier
identifier_asymm l r h = ground (arith, text_gt_asymm l r)

identifier_trans :
    (l m r : Text)
    → compare_identifier l m ≡ greater
    → compare_identifier m r ≡ greater
    → compare_identifier l r ≡ greater
unfolding compare_identifier
identifier_trans l m r h k = ground (arith, text_gt_trans l m r)

identifiers_asymm :
    (l r : List Text) → compare_identifiers l r ≡ greater → compare_identifiers r l ≡ less
unfolding compare_identifiers
identifiers_asymm [] [] h = cc
identifiers_asymm [] (r ∷ rs) h = cc
identifiers_asymm (l ∷ ls) [] h = refl
identifiers_asymm (l ∷ ls) (r ∷ rs) h = ground (
  arith,
  identifiers_asymm ls rs,
  identifier_asymm l r,
  same_text→eq l r,
  same_text→eq r l,
  same_text_refl l,
)

identifiers_trans :
    (l m r : List Text)
    → compare_identifiers l m ≡ greater
    → compare_identifiers m r ≡ greater
    → compare_identifiers l r ≡ greater
unfolding compare_identifiers
identifiers_trans [] [] r h k = cc
identifiers_trans [] (m ∷ ms) r h k = cc
identifiers_trans (l ∷ ls) [] [] h k = cc
identifiers_trans (l ∷ ls) [] (r ∷ rs) h k = cc
identifiers_trans (l ∷ ls) (m ∷ ms) [] h k = refl
identifiers_trans (l ∷ ls) (m ∷ ms) (r ∷ rs) h k = ground (
  arith,
  identifiers_trans ls ms rs,
  identifier_trans l m r,
  identifier_asymm l m,
  same_text→eq l m,
  same_text→eq m r,
  same_text→eq l r,
  same_text_refl l,
  same_text_refl m,
)

prerelease_asymm :
    (l r : Option (List Text)) → compare_prerelease l r ≡ greater → compare_prerelease r l ≡ less
unfolding compare_prerelease
prerelease_asymm none none h = cc
prerelease_asymm none (some r) h = refl
prerelease_asymm (some l) none h = cc
prerelease_asymm (some l) (some r) h = identifiers_asymm l r h

prerelease_trans :
    (l m r : Option (List Text))
    → compare_prerelease l m ≡ greater
    → compare_prerelease m r ≡ greater
    → compare_prerelease l r ≡ greater
unfolding compare_prerelease
prerelease_trans none none r h k = cc
prerelease_trans none (some m) none h k = cc
prerelease_trans none (some m) (some r) h k = refl
prerelease_trans (some l) none r h k = cc
prerelease_trans (some l) (some m) none h k = cc
prerelease_trans (some l) (some m) (some r) h k = identifiers_trans l m r h k

is_newer_asymm : (a b : Version) → is_newer a b ≡ true → is_newer b a ≡ false
unfolding is_newer
is_newer_asymm a b h = ground (arith, prerelease_asymm a.prerelease b.prerelease)

is_newer_trans : (a b c : Version) → is_newer a b ≡ true → is_newer b c ≡ true → is_newer a c ≡ true
unfolding is_newer
is_newer_trans a b c h k = ground (arith, prerelease_trans a.prerelease b.prerelease c.prerelease)

parsed_asymm : (a b : Option Version) → newer_parsed a b ≡ true → newer_parsed b a ≡ false
parsed_asymm none b h = cc
parsed_asymm (some a) none h = cc
parsed_asymm (some a) (some b) h = is_newer_asymm a b h

parsed_trans :
    (a b c : Option Version)
    → newer_parsed a b ≡ true
    → newer_parsed b c ≡ true
    → newer_parsed a c ≡ true
parsed_trans none b c h k = cc
parsed_trans (some a) none c h k = cc
parsed_trans (some a) (some b) none h k = cc
parsed_trans (some a) (some b) (some c) h k = is_newer_trans a b c h k

-- Being newer is a strict order on all texts: no two versions are newer than each other, and what
-- is newer than a newer version is newer.
pub is_newer_version_strict :
    (a b c : Text)
    → is_newer_version a b ≡ true
    → (is_newer_version b a ≡ false) × (is_newer_version b c ≡ true → is_newer_version a c ≡ true)
unfolding is_newer_version
is_newer_version_strict a b c h = (
  parsed_asymm (parse_version a) (parse_version b) h,
  parsed_trans (parse_version a) (parse_version b) (parse_version c) h,
)
