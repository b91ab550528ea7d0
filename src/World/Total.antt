-- ===== src/World/Total.antt =====
-- Coroutines that return, whatever the environment does.
use omnimap_sync.Prelude.{Bool, true, false, List, [], ◌∷◌, ◌≡◌, refl, if◌then◌else◌, String}
use omnimap_sync.Models.{Outgoing}
use omnimap_sync.World.{
  World, Manager, Exn, Result, ok, raised, Exec, ◌>>=◌, pure, gets, catch, try_except, for_each,
  continue, spawn, update_manager,
}

abbrev pub is_ok : {A : Type 0} → Result A → Bool
is_ok (ok a) = true
is_ok (raised e) = false

pub record Total {S : Type 0} {A : Type 0} (m : Exec S A) : Type 0 where
  pub returns : (w : World S) → is_ok (m w).0 ≡ true

module _ {S A : Type 0} where
  pub Total-pure : (a : A) → Total (pure {S = S} a)
  unfolding pure
  Total-pure a = record { returns = λ w. refl }

  pub Total-gets : (f : World S → A) → Total (gets f)
  unfolding gets
  Total-gets f = record { returns = λ w. refl }

  catch_returns :
      (h : Exn → Exec S A) (r : Result A) (w : World S)
      → ((e : Exn) → Total (h e))
      → is_ok (catch h r w).0 ≡ true
  catch_returns h (ok a) w t = refl
  catch_returns h (raised e) w t = (t e).returns w

  -- What is tried may raise; the handler may not.
  pub Total-try_except :
      (m : Exec S A) (h : Exn → Exec S A) → ((e : Exn) → Total (h e)) → Total (try_except m h)
  unfolding try_except
  Total-try_except m h t = record { returns = λ w. catch_returns h (m w).0 (m w).1 t }

  pub Total-if : (b : Bool) (m n : Exec S A) → Total m → Total n → Total (if b then m else n)
  Total-if true m n tm tn = tm
  Total-if false m n tm tn = tn

  -- Where the second branch is total only if the test fails.
  pub Total-if_false :
      (b : Bool) (m n : Exec S A) → Total m → (b ≡ false → Total n) → Total (if b then m else n)
  Total-if_false true m n tm tn = tm
  Total-if_false false m n tm tn = tn refl

module _ {S A B : Type 0} where
  continue_returns :
      (f : A → Exec S B) (r : Result A) (w : World S)
      → is_ok r ≡ true
      → ((a : A) → Total (f a))
      → is_ok (continue f r w).0 ≡ true
  continue_returns f (ok a) w h t = (t a).returns w
  continue_returns f (raised e) w h t = h

  pub Total-bind :
      (m : Exec S A) (f : A → Exec S B) → Total m → ((a : A) → Total (f a)) → Total (m >>= f)
  unfolding ◌>>=◌
  Total-bind m f t tf = record {
    returns = λ w. continue_returns f (m w).0 (m w).1 (t.returns w) tf;
  }

module _ {S A : Type 0} where
  pub Total-for_each :
      (xs : List A) (body : A → Exec S Unit) → ((x : A) → Total (body x)) → Total (for_each xs body)
  unfolding for_each
  Total-for_each [] body t = Total-pure tt
  Total-for_each (x ∷ xs) body t =
      Total-bind (body x) (λ _. for_each xs body) (t x) (λ _. Total-for_each xs body t)

module _ {S : Type 0} where
  pub Total-update_manager : (f : Manager → Manager) → Total (update_manager {S = S} f)
  unfolding update_manager
  Total-update_manager f = record { returns = λ w. refl }

  pub Total-spawn : (m : Outgoing) (us : List String) → Total (spawn {S = S} m us)
  unfolding spawn
  Total-spawn m us = record { returns = λ w. refl }

pub ruleset total_rules = (
  Total-pure, Total-gets, Total-try_except, Total-if, Total-bind, Total-for_each,
  Total-update_manager, Total-spawn,
)
