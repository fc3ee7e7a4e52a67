-- ===== src/Nbe/Action.antt =====
-- The shape of the frame code: a chain of steps on a buffer of bytes, where each step may return
-- an error or panic. The buffer is the unread input of a `bytes.Reader`, or what a `bytes.Buffer`
-- was given so far.
use boiler_mate.Prelude.{◌≡◌, String, Bytes}

-- Go's errors by their text's shape; the argument is the field's name.
pub data Error : Type 0 where
  failed_to_read failed_to_parse invalid_marker too_large empty_field : String → Error
  invalid : String → Error → Error
  unresolved unsent timeout key_rejected : Error

pub data Outcome {ℓ} (A : Type ℓ) : Type ℓ where
  ok : A → Outcome A
  err : Error → Outcome A
  panic : Outcome A

abbrev pub Action : Type 0 → Type 0
Action A = Bytes → Outcome A × Bytes

abbrev pub return : {A : Type 0} → A → Action A
return a s = (ok a, s)

abbrev pub fail : {A : Type 0} → Error → Action A
fail e s = (err e, s)

-- What the next step makes of an outcome.
abbrev pub and_then : {A B : Type 0} → Outcome A → Bytes → (A → Action B) → Outcome B × Bytes
and_then (ok a) s f = f a s
and_then (err e) s f = (err e, s)
and_then panic s f = (panic, s)

infixl 5 ◌>>=◌ ◌>>◌
abbrev pub ◌>>=◌ : {A B : Type 0} → Action A → (A → Action B) → Action B
◌>>=◌ m f s = and_then (m s).0 (m s).1 f

abbrev pub ◌>>◌ : {A B : Type 0} → Action A → Action B → Action B
◌>>◌ m k = m >>= λ _. k

-- The steps of an action that succeeds at a buffer are those of what follows it.
pub bind-ok :
    {A B : Type 0} (m : Action A) (f : A → Action B) (s t : Bytes) (a : A)
    → m s ≡ (ok a, t)
    → (m >>= f) s ≡ f a t
bind-ok m f s t a e = rw e

pub bind-err :
    {A B : Type 0} (m : Action A) (f : A → Action B) (s t : Bytes) (e : Error)
    → m s ≡ (err e, t)
    → (m >>= f) s ≡ (err e, t)
bind-err m f s t e h = rw h

pub bind-panic :
    {A B : Type 0} (m : Action A) (f : A → Action B) (s t : Bytes)
    → m s ≡ (panic, t)
    → (m >>= f) s ≡ (panic, t)
bind-panic m f s t h = rw h
