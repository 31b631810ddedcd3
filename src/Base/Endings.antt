-- ===== src/Base/Endings.antt =====
-- How a handler ends: with a value, with the `Err` that `?` passes up, or in a panic.
use mathlib.Core.Path.{◌≡◌, refl}
use mathlib.Core.Option.{Option, none, some}

pub data Failure : Type 0 where
  -- `Err("The command receiver has been dropped")`
  receiver_dropped : Failure
  -- the dispatcher's own error
  dispatch_failed : Failure
  -- `Err("state machine cancelled")`
  machine_cancelled : Failure
  -- `Err("Worker runner is not active")`
  runner_inactive : Failure
  -- `Err("Shutdown cancelled: worker task was forcefully aborted")`
  shutdown_forced : Failure
  -- an error of a worker, of its task, or of the join
  worker_failed : Failure
  -- `Status::internal(…)`
  internal : Failure

pub data Result {ℓ} (V : Type ℓ) : Type ℓ where
  panic : Result V
  err : Failure → Result V
  ok : V → Result V

infixl 5 ◌>>=◌
abbrev pub ◌>>=◌ {ℓ κ} : {V : Type ℓ} {W : Type κ} → Result V → (V → Result W) → Result W
panic >>= next = panic
err why >>= next = err why
ok v >>= next = next v

-- `o.expect(…)`
abbrev pub expect {ℓ} : {V : Type ℓ} → Option V → Result V
expect (some v) = ok v
expect none = panic

-- The two successes that a successful `do` is made of.
pub >>=-eq-ok {ℓ κ} :
    {V : Type ℓ} {W : Type κ} (first : Result V) (next : V → Result W) {w : W}
    → (first >>= next) ≡ ok w
    → (v : V) × (first ≡ ok v) × (next v ≡ ok w)
>>=-eq-ok panic next success = cc
>>=-eq-ok (err why) next success = cc
>>=-eq-ok (ok v) next success = (v, refl, success)

abbrev pub Returns {ℓ} : {V : Type ℓ} → Result V → Type ℓ
Returns {V = V} m = (v : V) × (m ≡ ok v)

-- A `do` returns if its parts do.
pub >>=-Returns {ℓ κ} :
    {V : Type ℓ} {W : Type κ} (first : Result V) (next : V → Result W)
    → Returns first
    → ((v : V) → first ≡ ok v → Returns (next v))
    → Returns (first >>= next)
>>=-Returns panic next (v, e) h = cc
>>=-Returns (err why) next (v, e) h = cc
>>=-Returns (ok w) next (v, e) h = h w refl

pub expect-Returns {ℓ} : {V : Type ℓ} (o : Option V) {v : V} → o ≡ some v → Returns (expect o)
expect-Returns none h = cc
expect-Returns (some w) h = (w, refl)

pub ok-inj {ℓ} : {A : Type ℓ} {a b : A} → ok a ≡ ok b → a ≡ b
ok-inj e = cc
