-- ===== src/Domain.antt =====
-- crates/domain/src/lib.rs: the value types, and the constructor that rejects a self-follow.
use twitter_rust_formal_veri.Prelude.{
  ℤ, ℤ-discrete, Str, lit, str_eq, str_eq_iff, Str-discrete, ◌≡◌, ◌≢◌, ◌↔◌, false, Result, ok, err,
  arith, if◌then◌else◌,
}

pub record User : Type 0 where
  pub id : ℤ
  pub handle : Str

pub record Tweet : Type 0 where
  pub id : ℤ
  pub author : Str
  pub text : Str
  pub created_at : ℤ

pub record Follow : Type 0 where
  pub from : Str
  pub to : Str

pub data DomainError : Type 0 where
  self_follow : DomainError

-- `Follow::new`
unfoldable pub new : Str → Str → Result DomainError Follow
new from to = if str_eq from to then err self_follow else ok (record { from = from; to = to })

-- `impl Display for DomainError`
unfoldable pub fmt : DomainError → Str
fmt self_follow = lit "self_follow_forbidden"

-- `Follow::new` fails exactly on equal handles, and a follow that it returns holds the handles as
-- they were given, which then differ.
pub new_lem :
    (from to : Str)
    → ((new from to ≡ err self_follow) ↔ (from ≡ to))
      × ((new from to ≡ ok (record { from = from; to = to })) ↔ (from ≢ to))
unfolding new
new_lem from to = (
  (λ h. ground (arith, str_eq_iff from to), λ e. ground (arith, str_eq_iff from to)),
  (λ h e. ground (arith, str_eq_iff from to), λ d. ground (arith, str_eq_iff from to)),
)

-- No follow that the constructor returns leads from a handle to itself.
pub new-irreflexive : (from to : Str) {f : Follow} → new from to ≡ ok f → str_eq f.from f.to ≡ false
unfolding new
new-irreflexive from to h = ground (arith, str_eq_iff from to)

pub Tweet-discrete : Discrete Tweet
Tweet-discrete = hlevel (ℤ-discrete, Str-discrete)

pub User-discrete : Discrete User
User-discrete = hlevel (ℤ-discrete, Str-discrete)
