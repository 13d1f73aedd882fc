-- ===== src/Errors.antt =====
-- lib/ErrorContext.h: what a callback returns, and the macros that pass it on.
use libfc.Prelude.{
  ◌≡◌, refl, ℕ, Option, none, some, Outcome, ok, thrown, aborted, undefined, exhausted,
}

pub data Severity : Type 0 where
  fine warning recoverable fatal : Severity

-- The codes of lib/Error.h that the modelled code returns or reads; `other` is any other code, which
-- only a user's callback can return.
pub data Error : Type 0 where
  aborted_by_user again format_error input_source_cant_peek ipfix_basetime long_fieldspec long_set :
      Error
  message_version_number short_body short_header short_message system_error : Error
  other : ℕ → Error

pub record ErrorContext : Type 0 where
  pub severity : Severity
  pub error : Error

-- `std::shared_ptr<ErrorContext>`: `none` is LIBFC_RETURN_OK ().
abbrev pub Reply : Type 0
Reply = Option ErrorContext

-- LIBFC_RETURN_ERROR.
abbrev pub failed : Severity → Error → Reply
failed s e = some (record { severity = s; error = e })

-- A call that leaves a reply and a state.
abbrev pub Call {ℓ} : Type ℓ → Type ℓ
Call S = Outcome (Reply × S)

abbrev pub return_ok {ℓ} : {S : Type ℓ} → S → Call S
return_ok s = ok (none, s)

abbrev pub return_error {ℓ} : {S : Type ℓ} → Severity → Error → S → Call S
return_error severity e s = ok (failed severity e, s)

-- LIBFC_RETURN_CALLBACK_ERROR and CH_REPORT_CALLBACK_ERROR: an error is returned at once.
infixl 5 ◌>=>◌
abbrev pub ◌>=>◌ {ℓ} : {S : Type ℓ} → Call S → (S → Call S) → Call S
ok (none, s) >=> f = f s
ok (some e, s) >=> f = ok (some e, s)
thrown >=> f = thrown
aborted >=> f = aborted
undefined >=> f = undefined
exhausted >=> f = exhausted

-- Chains that go on alike after a success are alike.
pub >=>-cong_ok {ℓ} :
    {S : Type ℓ} (c : Call S) (f g : S → Call S)
    → ((s : S) → c ≡ ok (none, s) → f s ≡ g s)
    → (c >=> f) ≡ (c >=> g)
>=>-cong_ok (ok (none, s)) f g h = h s refl
>=>-cong_ok (ok (some e, s)) f g h = refl
>=>-cong_ok thrown f g h = refl
>=>-cong_ok aborted f g h = refl
>=>-cong_ok undefined f g h = refl
>=>-cong_ok exhausted f g h = refl

pub >=>-cong {ℓ} :
    {S : Type ℓ} (c : Call S) (f g : S → Call S) → ((s : S) → f s ≡ g s) → (c >=> f) ≡ (c >=> g)
>=>-cong c f g h = >=>-cong_ok c f g (λ s e. h s)
