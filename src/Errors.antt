-- ===== src/Errors.antt =====
-- errors.py: the exception hierarchy, with the built-in and third-party exceptions that the modelled
-- code raises or catches, and fallible calls. An error carries the constant part of its message; a
-- native return code is kept.
use hftbacktest_tw.Prelude.{
  ◌≡◌, refl, Bool, true, false, ◌||◌, Option, none, some, String, List, [], ◌∷◌, any, if◌then◌else◌,
}
use hftbacktest_tw.Prelude.Int.{ℤ}

-- The classes of errors.py, then those of Python and of pyarrow.
pub data Class : Type 0 where
  slim_error slim_configuration_error unsupported_capability_error arrow_data_error : Class
  compact_cache_error compact_cache_budget_error engine_closed_error native_call_error : Class
  order_submission_error native_library_error native_library_not_found_error : Class
  abi_mismatch_error : Class
  exception value_error type_error key_error runtime_error os_error file_not_found_error : Class
  overflow_error attribute_error arrow_exception json_decode_error unicode_error : Class
  index_error zero_division_error : Class

-- Every class above a class, as its bases give them.
unfoldable pub ancestors : Class → List Class
ancestors slim_error = exception ∷ []
ancestors slim_configuration_error = slim_error ∷ value_error ∷ exception ∷ []
ancestors unsupported_capability_error = slim_error ∷ exception ∷ []
ancestors arrow_data_error = slim_error ∷ value_error ∷ exception ∷ []
ancestors compact_cache_error = slim_error ∷ runtime_error ∷ exception ∷ []
ancestors compact_cache_budget_error =
    compact_cache_error ∷ slim_error ∷ runtime_error ∷ exception ∷ []
ancestors engine_closed_error = slim_error ∷ exception ∷ []
ancestors native_call_error = slim_error ∷ runtime_error ∷ exception ∷ []
ancestors order_submission_error = native_call_error ∷ slim_error ∷ runtime_error ∷ exception ∷ []
ancestors native_library_error = slim_error ∷ exception ∷ []
ancestors native_library_not_found_error =
    native_library_error ∷ slim_error ∷ file_not_found_error ∷ os_error ∷ exception ∷ []
ancestors abi_mismatch_error = native_library_error ∷ slim_error ∷ exception ∷ []
ancestors exception = []
ancestors json_decode_error = value_error ∷ exception ∷ []
ancestors unicode_error = value_error ∷ exception ∷ []
ancestors file_not_found_error = os_error ∷ exception ∷ []
ancestors _ = exception ∷ []

unfoldable pub Class-discrete : Discrete Class
Class-discrete = hlevel

abbrev pub same_class : Class → Class → Bool
same_class a b = elim (Class-discrete a b) [ yes _ ↦ true | no _ ↦ false ]

-- Does `except b` catch an exception of class `a`?
unfoldable pub is_caught_by : Class → Class → Bool
unfolding ancestors Class-discrete
is_caught_by a b = same_class a b || any (same_class b) (ancestors a)

pub record Error : Type 0 where
  pub class : Class
  pub message : String
  pub code : Option ℤ

pub data Result {ℓ} (A : Type ℓ) : Type ℓ where
  ok : A → Result A
  err : Error → Result A

module _ {ℓ} {A : Type ℓ} where
  abbrev pub raise : Class → String → Result A
  raise class message = err (record { class = class; message = message; code = none })

  abbrev pub raise_code : Class → String → ℤ → Result A
  raise_code class message code =
      err (record { class = class; message = message; code = some code })

module _ {ℓ κ} {A : Type ℓ} {B : Type κ} where
  infixl 5 ◌>>=◌
  abbrev pub ◌>>=◌ : Result A → (A → Result B) → Result B
  ok value >>= next = next value
  err error >>= next = err error

module _ {κ} {B : Type κ} where
  infixl 5 ◌>>◌
  abbrev pub ◌>>◌ : Result (Unit {0}) → Result B → Result B
  first >> second = first >>= λ _. second

-- `if test: raise class(message)`
abbrev pub raise_if : Bool → Class → String → Result (Unit {0})
raise_if true class message = raise class message
raise_if false class message = ok tt

-- `try: ... except caught as exc: raise class(message) from exc`
unfoldable pub convert {ℓ} : {A : Type ℓ} → List Class → Class → String → Result A → Result A
unfolding is_caught_by
convert caught class message (ok value) = ok value
convert caught class message (err e) =
    if any (is_caught_by e.class) caught then raise class message else err e

-- What follows a call that returns, and the error of one that does not.
pub bind_ok {ℓ κ} :
    {A : Type ℓ} {B : Type κ} {m : Result A} {a : A} (next : A → Result B) (h : m ≡ ok a)
    → (m >>= next) ≡ next a
bind_ok next h = rw h refl
