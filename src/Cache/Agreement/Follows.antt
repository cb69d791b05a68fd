-- ===== src/Cache/Agreement/Follows.antt =====
-- Results that hold on to a success: what the first returns, the second returns too.
use hftbacktest_tw.Prelude.{◌≡◌, refl, sym, subst, arith, Option, none, some, List, String}
use hftbacktest_tw.Errors.{Class, Error, Result, ok, err, convert, ◌>>=◌, ◌>>◌}

abbrev pub Follows {ℓ} : {A : Type ℓ} → Result A → Result A → Type ℓ
Follows {A} r r' = (a : A) → r ≡ ok a → r' ≡ ok a

pub Follows-refl {ℓ} : {A : Type ℓ} (r : Result A) → Follows r r
Follows-refl r a h = h

pub Follows-bind {ℓ κ} :
    {A : Type ℓ} {B : Type κ} (r r' : Result A) (k k' : A → Result B)
    → Follows r r'
    → ((a : A) → Follows (k a) (k' a))
    → Follows (r >>= k) (r' >>= k')
Follows-bind (err e) r' k k' h l b got = absurd (ground arith)
Follows-bind (ok a) r' k k' h l b got = subst (λ x. (x >>= k') ≡ ok b) (sym (h a refl)) (l a b got)

pub Follows-then {κ} :
    {B : Type κ} (r r' : Result (Unit {0})) (k k' : Result B)
    → Follows r r'
    → Follows k k'
    → Follows (r >> k) (r' >> k')
Follows-then r r' k k' h l = Follows-bind r r' (λ _. k) (λ _. k') h (λ _. l)

pub Follows-convert {ℓ} :
    {A : Type ℓ} (caught : List Class) (class : Class) (message : String) (r r' : Result A)
    → Follows r r'
    → Follows (convert caught class message r) (convert caught class message r')
unfolding convert
Follows-convert caught class message (ok a) r' h b got =
    subst (λ x. convert caught class message x ≡ ok b) (sym (h a refl)) got
Follows-convert caught class message (err e) r' h b got = absurd (ground arith)

-- What a file that is there gives, and an error for one that is not.
pub Follows-found {ℓ κ} :
    {F : Type ℓ} {A : Type κ} (o o' : Option F) (e : Error) (k k' : F → Result A)
    → ((x : F) → o ≡ some x → o' ≡ some x)
    → ((x : F) → Follows (k x) (k' x))
    → Follows
        (elim o as (λ _. Result A) [ none ↦ err e | some x ↦ k x ])
        (elim o' as (λ _. Result A) [ none ↦ err e | some x ↦ k' x ])
Follows-found none o' e k k' h l a got = absurd (ground arith)
Follows-found {A} (some x) o' e k k' h l a got =
    subst (λ y. elim y as (λ _. Result A) [ none ↦ err e | some x ↦ k' x ] ≡ ok a) (sym (h x refl))
      (l x a got)
