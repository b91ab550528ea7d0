-- ===== src/Consumer/Chunks.antt =====
-- The loop over chunks of app/rabbitmq_consumer.py.
use omnimap_sync.Prelude.{
  ℕ, zero, suc, String, true, List, [], ◌∷◌, ◌++◌, drop, length, take-append-drop, length-drop, ◌≡◌,
  refl, arith, leb,
}
use omnimap_sync.Consumer.Access.{chunks_loop, chunks}

abbrev pub concat : List (List String) → List String
concat [] = []
concat (xs ∷ xss) = xs ++ concat xss

concat-chunks_loop :
    (fuel portion : ℕ) (xs : List String)
    → leb (length xs) fuel ≡ true
    → concat (chunks_loop fuel (suc portion) xs) ≡ xs
concat-chunks_loop zero portion [] h = refl
concat-chunks_loop zero portion (x ∷ xs) h = ground arith
concat-chunks_loop (suc fuel) portion [] h = refl
concat-chunks_loop (suc fuel) portion (x ∷ xs) h =
    rw (concat-chunks_loop fuel portion (drop portion xs) (ground (arith, length-drop portion xs)))
      (take-append-drop (suc portion) (x ∷ xs))

-- For chunks of at least one element, the chunks one after the other are the list: the fuel is
-- enough.
pub concat-chunks : (portion : ℕ) (xs : List String) → concat (chunks (suc portion) xs) ≡ xs
unfolding chunks
concat-chunks portion xs = concat-chunks_loop (length xs) portion xs (ground arith)
