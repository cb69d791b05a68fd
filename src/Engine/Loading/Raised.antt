-- ===== src/Engine/Loading/Raised.antt =====
-- Which exceptions `except` clauses of the loader catch, and what they raise instead.
use hftbacktest_tw.Prelude.{◌≡◌, ◌↔◌, ◌⊎◌, inl, inr, refl, sym, subst, arith, true, [], ◌∷◌}
use hftbacktest_tw.Errors.{
  Class-discrete, ancestors, Result, ok, err, Error, convert, is_caught_by, ◌>>=◌, ◌>>◌, os_error,
  native_library_error, native_library_not_found_error, abi_mismatch_error,
}
use hftbacktest_tw.MarketData.Schema.Accepted.{ok_injective}

pub converted_iff :
    {A : Type 0} (r : Result A) (a : A)
    → (convert (os_error ∷ []) native_library_error "failed to load" r ≡ ok a) ↔ (r ≡ ok a)
unfolding convert
converted_iff (ok b) a = ground arith
converted_iff (err e) a = ground arith

pub after_check_lem :
    {A : Type 0} (c : Result (Unit {0})) (a b : A) → (c >> ok a) ≡ ok b → (c ≡ ok tt) × (a ≡ b)
after_check_lem (ok _) a b h = (refl, ok_injective a b h)
after_check_lem (err e) a b h = absurd (ground arith)

pub bind_error :
    {A B : Type 0} (m : Result A) (next : A → Result B) (e : Error)
    → (m >>= next) ≡ err e
    → (m ≡ err e) ⊎ ((a : A) × (m ≡ ok a) × (next a ≡ err e))
bind_error (ok a) next e h = inr (a, refl, h)
bind_error (err d) next e h = inl (ground arith)

pub missing_caught : is_caught_by native_library_not_found_error native_library_error ≡ true
unfolding is_caught_by ancestors Class-discrete
missing_caught = refl

pub self_caught : is_caught_by native_library_error native_library_error ≡ true
unfolding is_caught_by ancestors Class-discrete
self_caught = refl

pub abi_caught : is_caught_by abi_mismatch_error native_library_error ≡ true
unfolding is_caught_by ancestors Class-discrete
abi_caught = refl

os_caught : is_caught_by os_error os_error ≡ true
unfolding is_caught_by ancestors Class-discrete
os_caught = refl

pub converted_error :
    {A : Type 0} (r : Result A) (e : Error)
    → ((failure : Error) → r ≡ err failure → failure.class ≡ os_error)
    → convert (os_error ∷ []) native_library_error "failed to load" r ≡ err e
    → e.class ≡ native_library_error
unfolding convert
converted_error (ok a) e documented h = absurd (ground arith)
converted_error (err d) e documented h =
    let caught : is_caught_by d.class os_error ≡ true =
      subst (λ c. is_caught_by c os_error ≡ true) (sym (documented d refl)) os_caught in
    ground (arith, caught, h)
