-- ===== src/World/Ensures.antt =====
-- What an action does when it returns: one rule for each way to build one, and those for requests
-- that do not fail.
use mathlib.Core.Path.{subst}
use omnimap_sync.Prelude.{
  Bool, true, false, if◌then◌else◌, ap, sym, Bool, List, [], ◌∷◌, map, ◌≡◌, refl,
}
use omnimap_sync.Redis.{Key, Command, Entry, Redis}
use omnimap_sync.World.{
  World, Exn, Result, ok, raised, Exec, ◌>>=◌, pure, try_except, try_finally, Manager,
  update_manager, catch, for_each, request, request_with, modify, gets, write_all, read, read_all,
  write_read, apply_all,
}
use omnimap_sync.World.Total.{Total, is_ok}
use omnimap_sync.World.Keeps.{Keeps, Leads}

-- From `P`, `m` returns, and `Q` holds of what it returns and of the state.
pub record Ensures {S : Type 0} {A : Type 0} (P : World S → Type 0) (Q : A → World S → Type 0)
    (m : Exec S A) : Type 0 where
  pub value : (w : World S) → P w → A
  pub returns : (w : World S) (h : P w) → (m w).0 ≡ ok (value w h)
  pub after : (w : World S) (h : P w) → Q (value w h) (m w).1

module _ {S A : Type 0} {P : World S → Type 0} {Q : A → World S → Type 0} where
  pub Ensures-pure : (a : A) → ((w : World S) → P w → Q a w) → Ensures P Q (pure a)
  unfolding pure
  Ensures-pure a k = record { value = λ w h. a; returns = λ w h. refl; after = k }

  pub Ensures-if :
      (test : Bool) (accept refuse : Exec S A)
      → (test ≡ true → Ensures P Q accept)
      → (test ≡ false → Ensures P Q refuse)
      → Ensures P Q (if test then accept else refuse)
  Ensures-if true accept refuse on_true on_false = on_true refl
  Ensures-if false accept refuse on_true on_false = on_false refl

  pub Ensures-try_except :
      (m : Exec S A) (handler : Exn → Exec S A) → Ensures P Q m → Ensures P Q (try_except m handler)
  unfolding try_except
  Ensures-try_except m handler e = record {
    value = e.value;
    returns = λ w h. rw (e.returns w h) refl;
    after = λ w h. rw (e.returns w h) (e.after w h);
  }

module _ {S A : Type 0} {P P' : World S → Type 0} {Q Q' : A → World S → Type 0} where
  pub Ensures-weaken :
      (m : Exec S A)
      → Ensures P Q m
      → ((w : World S) → P' w → P w)
      → ((a : A) (w : World S) → Q a w → Q' a w)
      → Ensures P' Q' m
  Ensures-weaken m e before after = record {
    value = λ w h. e.value w (before w h);
    returns = λ w h. e.returns w (before w h);
    after = λ w h. after _ _ (e.after w (before w h));
  }

module _ {S A B : Type 0} {P : World S → Type 0} (Q : A → World S → Type 0)
    {T : B → World S → Type 0} where
  pub Ensures-bind :
      (m : Exec S A) (f : A → Exec S B)
      → Ensures P Q m
      → ((a : A) → Ensures (Q a) T (f a))
      → Ensures P T (m >>= f)
  unfolding ◌>>=◌
  Ensures-bind m f e k = record {
    value = λ w h. (k (e.value w h)).value (m w).1 (e.after w h);
    returns = λ w h. rw (e.returns w h) ((k (e.value w h)).returns (m w).1 (e.after w h));
    after = λ w h. rw (e.returns w h) ((k (e.value w h)).after (m w).1 (e.after w h));
  }

module _ {S A : Type 0} where
  -- A loop whose invariant speaks of what is left to do.
  pub Ensures-for_each :
      (I : List A → World S → Type 0) (xs : List A) (body : A → Exec S Unit)
      → ((x : A) (rest : List A) → Ensures (I (x ∷ rest)) (λ _. I rest) (body x))
      → Ensures (I xs) (λ _. I []) (for_each xs body)
  unfolding for_each
  Ensures-for_each I [] body k = Ensures-pure tt (λ w h. h)
  Ensures-for_each I (x ∷ xs) body k =
      Ensures-bind (λ _. I xs) (body x) (λ _. for_each xs body) (k x xs)
        (λ _. Ensures-for_each I xs body k)

-- No request fails.
abbrev pub IsCalm : {S : Type 0} → World S → Type 0
IsCalm w = w.faults ≡ []

pub request_with_calm :
    {S : Type 0} (fs : List Bool) (w : World S) → fs ≡ [] → request_with fs w ≡ (ok tt, w)
request_with_calm [] w h = refl
request_with_calm (b ∷ fs) w h = cc

module _ {S : Type 0} {P : World S → Type 0} where
  pub Ensures-modify :
      {Q : Unit {0} → World S → Type 0} (f : World S → World S)
      → ((w : World S) → P w → Q tt (f w))
      → Ensures P Q (modify f)
  unfolding modify
  Ensures-modify f k = record { value = λ w h. tt; returns = λ w h. refl; after = k }

  pub Ensures-request : ((w : World S) → P w → IsCalm w) → Ensures P (λ _. P) request
  unfolding request
  Ensures-request calm = record {
    value = λ w h. tt;
    returns = λ w h. ap (λ r. r.0) (request_with_calm w.faults w (calm w h));
    after = λ w h. subst (λ r. P r.1) (sym (request_with_calm w.faults w (calm w h))) h;
  }

module _ {S A : Type 0} {P : World S → Type 0} where
  pub Ensures-gets :
      {Q : A → World S → Type 0} (f : World S → A)
      → ((w : World S) → P w → Q (f w) w)
      → Ensures P Q (gets f)
  unfolding gets
  Ensures-gets f k = record { value = λ w h. f w; returns = λ w h. refl; after = k }

module _ (R : Redis) {P : World R.State → Type 0}
    (calm : (w : World R.State) → P w → IsCalm w) where
  pub Ensures-write_all :
      {Q : Unit {0} → World R.State → Type 0} (cs : List (Key × Command))
      → ((w : World R.State) → P w → Q tt (record w { redis = apply_all R w.redis cs }))
      → Ensures P Q (write_all R cs)
  unfolding write_all
  Ensures-write_all cs k =
      Ensures-bind (λ _. P) request _ (Ensures-request calm) (λ _. Ensures-modify _ k)

  pub Ensures-read_all :
      {Q : List Entry → World R.State → Type 0} (ks : List Key)
      → ((w : World R.State) → P w → Q (map (R.view w.redis) ks) w)
      → Ensures P Q (read_all R ks)
  unfolding read_all
  Ensures-read_all ks k =
      Ensures-bind (λ _. P) request _ (Ensures-request calm) (λ _. Ensures-gets _ k)

  pub Ensures-read :
      {Q : Entry → World R.State → Type 0} (k : Key)
      → ((w : World R.State) → P w → Q (R.view w.redis k) w)
      → Ensures P Q (read R k)
  unfolding read
  Ensures-read key k =
      Ensures-bind (λ _. P) request _ (Ensures-request calm) (λ _. Ensures-gets _ k)

  pub Ensures-write_read :
      {Q : Entry → World R.State → Type 0} (key : Key) (c : Command)
      → ((w : World R.State)
          → P w
          → Q (R.view (R.write w.redis key c) key) (record w { redis = R.write w.redis key c }))
      → Ensures P Q (write_read R key c)
  unfolding write_read
  Ensures-write_read {Q} key c k =
      Ensures-bind (λ _. P) request _ (Ensures-request calm)
        (λ _.
          Ensures-bind (λ _ w. Q (R.view w.redis key) w) (modify _) _ (Ensures-modify _ k)
            (λ _. Ensures-gets _ (λ w h. h)))

-- From what `m` ensures, the rest goes on, whether it returns or raises.
module _ {S A B : Type 0} {P : World S → Type 0} (Q : A → World S → Type 0)
    (T : World S → Type 0) where
  pub Leads-after :
      (m : Exec S A) (f : A → Exec S B)
      → Ensures P Q m
      → ((a : A) → Leads (Q a) T (f a))
      → Leads P T (m >>= f)
  unfolding ◌>>=◌
  Leads-after m f e k = record {
    at = λ w h. rw (e.returns w h) ((k (e.value w h)).at (m w).1 (e.after w h));
  }

module _ {S A : Type 0} {Q T : World S → Type 0} where
  pub Leads-try_finally :
      (m : Exec S A) (f : Exec S Unit) → Keeps Q m → Leads Q T f → Leads Q T (try_finally m f)
  unfolding try_finally
  Leads-try_finally m f k l = record { at = λ w h. l.at (m w).1 (k.at w h) }

module _ {S A : Type 0} {P T : World S → Type 0} where
  pub Leads-if :
      (test : Bool) (accept refuse : Exec S A)
      → (test ≡ true → Leads P T accept)
      → (test ≡ false → Leads P T refuse)
      → Leads P T (if test then accept else refuse)
  Leads-if true accept refuse on_true on_false = on_true refl
  Leads-if false accept refuse on_true on_false = on_false refl

is_tt : (r : Result Unit) → is_ok r ≡ true → r ≡ ok tt
is_tt (ok tt) h = refl
is_tt (raised e) h = cc

module _ {S : Type 0} {P : World S → Type 0} where
  -- What keeps `P` and never raises ensures it.
  pub Ensures-Total : (m : Exec S Unit) → Keeps P m → Total m → Ensures P (λ _. P) m
  Ensures-Total m k t = record {
    value = λ w h. tt;
    returns = λ w h. is_tt (m w).0 (t.returns w);
    after = λ w h. k.at w h;
  }

  pub Ensures-update_manager :
      {Q : Unit {0} → World S → Type 0} (f : Manager → Manager)
      → ((w : World S) → P w → Q tt (record w { manager = f w.manager }))
      → Ensures P Q (update_manager f)
  unfolding update_manager
  Ensures-update_manager f k = record { value = λ w h. tt; returns = λ w h. refl; after = k }

caught :
    {S A : Type 0} {T : World S → Type 0} (handler : Exn → Exec S A) (r : Result A) (w : World S)
    → ((e : Exn) → Keeps T (handler e))
    → T w
    → T (catch handler r w).1
caught handler (ok a) w k t = t
caught handler (raised e) w k t = (k e).at w t

module _ {S A : Type 0} {P T : World S → Type 0} where
  pub Leads-try_except :
      (m : Exec S A) (handler : Exn → Exec S A)
      → Leads P T m
      → ((e : Exn) → Keeps T (handler e))
      → Leads P T (try_except m handler)
  unfolding try_except
  Leads-try_except m handler l k = record {
    at = λ w h. caught handler (m w).0 (m w).1 k (l.at w h);
  }
