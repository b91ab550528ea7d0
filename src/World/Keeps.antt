-- ===== src/World/Keeps.antt =====
-- Invariants of coroutines: one rule for each way to build one.
use omnimap_sync.Prelude.{Bool, true, false, List, [], ◌∷◌, ◌≡◌, refl, if◌then◌else◌}
use omnimap_sync.Redis.{Key, Command, Redis}
use omnimap_sync.World.{
  World, Exn, Result, ok, raised, Exec, ◌>>=◌, pure, raise, gets, modify, catch, try_except,
  for_each, request, request_with, read, read_all, write_all, write_read, apply_all, continue,
}

-- What a result satisfies, if it is one.
abbrev pub Returned : {A : Type 0} → (A → Type 0) → Result A → Type 0
Returned Q (ok a) = Q a
Returned Q (raised e) = Unit

-- `m` keeps `P`, whether it returns or raises.
pub record Keeps {S : Type 0} {A : Type 0} (P : World S → Type 0) (m : Exec S A) : Type 0 where
  pub at : (w : World S) → P w → P (m w).1

-- `m` keeps `P`, and if it returns, `Q` holds of the result.
pub record Yields {S : Type 0} {A : Type 0} (P : World S → Type 0) (Q : A → Type 0) (m : Exec S A)
    : Type 0 where
  pub at : (w : World S) → P w → P (m w).1
  pub result : (w : World S) → P w → Returned Q (m w).0

module _ {S A : Type 0} {P : World S → Type 0} where
  pub Keeps-pure : (a : A) → Keeps P (pure a)
  unfolding pure
  Keeps-pure a = record { at = λ w h. h }

  pub Keeps-raise : (e : Exn) → Keeps P (raise {A = A} e)
  unfolding raise
  Keeps-raise e = record { at = λ w h. h }

  pub Keeps-gets : (f : World S → A) → Keeps P (gets f)
  unfolding gets
  Keeps-gets f = record { at = λ w h. h }

  catch_keeps :
      (h : Exn → Exec S A) (r : Result A) (w : World S)
      → ((e : Exn) → Keeps P (h e))
      → P w
      → P (catch h r w).1
  catch_keeps h (ok a) w kh p = p
  catch_keeps h (raised e) w kh p = (kh e).at w p

  pub Keeps-try_except :
      (m : Exec S A) (h : Exn → Exec S A)
      → Keeps P m
      → ((e : Exn) → Keeps P (h e))
      → Keeps P (try_except m h)
  unfolding try_except
  Keeps-try_except m h km kh = record { at = λ w p. catch_keeps h (m w).0 (m w).1 kh (km.at w p) }

  pub Keeps-if :
      (test : Bool) (accept refuse : Exec S A)
      → (test ≡ true → Keeps P accept)
      → (test ≡ false → Keeps P refuse)
      → Keeps P (if test then accept else refuse)
  Keeps-if true accept refuse on_true on_false = on_true refl
  Keeps-if false accept refuse on_true on_false = on_false refl

any_result : {A : Type 0} (r : Result A) → Returned (λ _. Unit) r
any_result (ok a) = tt
any_result (raised e) = tt

module _ {S : Type 0} {P : World S → Type 0} where
  pub Keeps-modify : (f : World S → World S) → ((w : World S) → P w → P (f w)) → Keeps P (modify f)
  unfolding modify
  Keeps-modify f k = record { at = k }

-- A step of plain code, which makes no request and raises nothing.
pub Keeps-step :
    {S A : Type 0} {P : World S → Type 0} (m : Exec S A)
    → ((w : World S) → P w → P (m w).1)
    → Keeps P m
Keeps-step m k = record { at = k }

module _ {S A B : Type 0} {P : World S → Type 0} where
  continue_keeps :
      (Q : A → Type 0) (f : A → Exec S B) (r : Result A) (w : World S)
      → ((a : A) → Q a → Keeps P (f a))
      → Returned Q r
      → P w
      → P (continue f r w).1
  continue_keeps Q f (ok a) w kf q p = (kf a q).at w p
  continue_keeps Q f (raised e) w kf q p = p

  pub Keeps-bind-Yields :
      (Q : A → Type 0) (m : Exec S A) (f : A → Exec S B)
      → Yields P Q m
      → ((a : A) → Q a → Keeps P (f a))
      → Keeps P (m >>= f)
  unfolding ◌>>=◌
  Keeps-bind-Yields Q m f km kf = record {
    at = λ w p. continue_keeps Q f (m w).0 (m w).1 kf (km.result w p) (km.at w p);
  }

  pub Keeps-bind :
      (first : Exec S A) (next : A → Exec S B)
      → Keeps P first
      → ((a : A) → Keeps P (next a))
      → Keeps P (first >>= next)
  Keeps-bind first next kept step =
      Keeps-bind-Yields (λ _. Unit) first next
        (record { at = kept.at; result = λ w p. any_result (first w).0 }) (λ a _. step a)

module _ {S A : Type 0} {P : World S → Type 0} where
  pub Keeps-for_each :
      (xs : List A) (body : A → Exec S Unit)
      → ((x : A) → Keeps P (body x))
      → Keeps P (for_each xs body)
  unfolding for_each
  Keeps-for_each [] body k = Keeps-pure tt
  Keeps-for_each (x ∷ xs) body k =
      Keeps-bind (body x) (λ _. for_each xs body) (k x) (λ _. Keeps-for_each xs body k)

-- `P` says nothing of the environment's choices.
abbrev pub IgnoresFaults : {S : Type 0} → (World S → Type 0) → Type 0
IgnoresFaults {S} P = (w : World S) (fs : List Bool) → P w → P (record w { faults = fs })

module _ {S : Type 0} (P : World S → Type 0) (free : IgnoresFaults P) where
  request_with-Keeps : (fs : List Bool) → Keeps P (request_with fs)
  request_with-Keeps [] = record { at = λ w h. h }
  request_with-Keeps (true ∷ fs) = record { at = λ w h. free w fs h }
  request_with-Keeps (false ∷ fs) = record { at = λ w h. free w fs h }

  pub Keeps-request : Keeps P request
  unfolding request
  Keeps-request = record { at = λ w h. (request_with-Keeps w.faults).at w h }

module _ (R : Redis) (P : World R.State → Type 0) (free : IgnoresFaults P) where
  pub Keeps-write_all :
      (cs : List (Key × Command))
      → ((w : World R.State) → P w → P (record w { redis = apply_all R w.redis cs }))
      → Keeps P (write_all R cs)
  unfolding write_all
  Keeps-write_all cs k = search (Keeps-bind, Keeps-request, Keeps-modify, free, k)

  pub Keeps-read : (k : Key) → Keeps P (read R k)
  unfolding read
  Keeps-read k = search (Keeps-bind, Keeps-request, Keeps-gets, free)

  pub Keeps-read_all : (ks : List Key) → Keeps P (read_all R ks)
  unfolding read_all
  Keeps-read_all ks = search (Keeps-bind, Keeps-request, Keeps-gets, free)

  pub Keeps-write_read :
      (k : Key) (c : Command)
      → ((w : World R.State) → P w → P (record w { redis = R.write w.redis k c }))
      → Keeps P (write_read R k c)
  unfolding write_read
  Keeps-write_read k c h = search (Keeps-bind, Keeps-request, Keeps-modify, Keeps-gets, free, h)

pub ruleset keeps_rules =
    (Keeps-pure, Keeps-raise, Keeps-gets, Keeps-if, Keeps-try_except, Keeps-bind, Keeps-for_each)

-- From `P` before to `Q` after, whether `m` returns or raises.
pub record Leads {S : Type 0} {A : Type 0} (P Q : World S → Type 0) (m : Exec S A) : Type 0 where
  pub at : (w : World S) → P w → Q (m w).1

pub Leads-Keeps :
    {S : Type 0} {A : Type 0} {P : World S → Type 0} {m : Exec S A} → Keeps P m → Leads P P m
Leads-Keeps k = record { at = k.at }

module _ {S A B : Type 0} (P Q T : World S → Type 0) where
  continue_leads :
      (f : A → Exec S B) (r : Result A) (w : World S)
      → ((a : A) → Leads Q T (f a))
      → ((w : World S) → Q w → T w)
      → Q w
      → T (continue f r w).1
  continue_leads f (ok a) w lf weak q = (lf a).at w q
  continue_leads f (raised e) w lf weak q = weak w q

  pub Leads-bind :
      (m : Exec S A) (f : A → Exec S B)
      → Leads P Q m
      → ((a : A) → Leads Q T (f a))
      → ((w : World S) → Q w → T w)
      → Leads P T (m >>= f)
  unfolding ◌>>=◌
  Leads-bind m f lm lf weak = record {
    at = λ w p. continue_leads f (m w).0 (m w).1 lf weak (lm.at w p);
  }
