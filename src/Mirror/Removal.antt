-- ===== src/Mirror/Removal.antt =====
-- What the pipeline of `action_unsubscribe` leaves of the two indexes.
use omnimap_sync.Prelude.{
  String, Bool, true, false, not, ◌&&◌, ◌||◌, ◌==◌, eq_iff, List, [], ◌∷◌, ◌++◌, map, contains,
  insert, contains-insert, contains-remove, Dict, ◌≡◌, refl, arith, ap, ◌∙◌,
}
use omnimap_sync.Prelude.Assoc
use omnimap_sync.Redis.{
  Key, block, blockdata, subscriber, sandbox, Command, srem, Entry, Redis, IsLawful,
}
use omnimap_sync.World.{apply_all}
use omnimap_sync.Consumer.Access.{
  add_users, user_blocks_of, srem_commands, delete_commands, blocks_or_nil,
}
use omnimap_sync.Consumer.Pipelines.{map-AllKeys}
use omnimap_sync.Mirror.{
  is_neutral, subscribers_of, blocks_of, IsMirrored, AllNeutral, apply_neutral-IsMirrored,
  contains-subscribers_of, contains-blocks_of,
}

-- Whether the dict lists the block under the user.
abbrev listed : Dict (List String) → String → String → Bool
listed [] u b = false
listed ((v, bs) ∷ d) u b = (v == u && contains bs b) || listed d u b

listed-put :
    (d : Dict (List String)) (v a u b : String)
    → listed (Assoc.put d v (insert a (blocks_or_nil (Assoc.get d v)))) u b
      ≡ ((v == u && a == b) || listed d u b)
listed-put [] v a u b = ground arith
listed-put ((x, bs) ∷ d) v a u b =
    ground (arith, eq_iff x v, eq_iff v u, eq_iff x u, contains-insert a bs b, listed-put d v a u b)

listed-add_users :
    (a : String) (users : List String) (d : Dict (List String)) (u b : String)
    → listed (add_users a users d) u b ≡ ((contains users u && a == b) || listed d u b)
unfolding add_users
listed-add_users a [] d u b = refl
listed-add_users a (v ∷ users) d u b = ground (
  arith,
  listed-put d v a u b,
  listed-add_users a users (Assoc.put d v (insert a (blocks_or_nil (Assoc.get d v)))) u b,
)

abbrev entries_of : (R : Redis) → R.State → List String → List Entry
entries_of R s bs = map (R.view s) (map block bs)

listed-user_blocks_of :
    (R : Redis) (s : R.State) (bs : List String) (d : Dict (List String)) (u b : String)
    → listed (user_blocks_of bs (entries_of R s bs) d) u b
      ≡ ((contains bs b && contains (subscribers_of R s b) u) || listed d u b)
unfolding user_blocks_of
listed-user_blocks_of R s [] d u b = refl
listed-user_blocks_of R s (a ∷ bs) d u b = ground (
  arith,
  eq_iff a b,
  listed-add_users a (subscribers_of R s a) d u b,
  listed-user_blocks_of R s bs (add_users a (subscribers_of R s a) d) u b,
)

module _ (R : Redis) (L : IsLawful R) where
  pub apply_all-append :
      (s : R.State) (cs ds : List (Key × Command))
      → apply_all R s (cs ++ ds) ≡ apply_all R (apply_all R s cs) ds
  unfolding apply_all
  apply_all-append s [] ds = refl
  apply_all-append s ((k, c) ∷ cs) ds = apply_all-append (R.write s k c) cs ds

  abbrev srem_list : String → List String → List (Key × Command)
  srem_list user bs = map (λ b. (subscriber user, srem b)) bs

  subscribers-srem_list :
      (s : R.State) (user : String) (bs : List String) (b u : String)
      → contains (subscribers_of R (apply_all R s (srem_list user bs)) b) u
        ≡ contains (subscribers_of R s b) u
  unfolding apply_all
  subscribers-srem_list s user [] b u = refl
  subscribers-srem_list s user (a ∷ bs) b u =
      subscribers-srem_list (R.write s (subscriber user) (srem a)) user bs b u
      ∙ contains-subscribers_of R L s (subscriber user) (srem a) b u

  blocks-srem_list :
      (s : R.State) (user : String) (bs : List String) (u b : String)
      → contains (blocks_of R (apply_all R s (srem_list user bs)) u) b
        ≡ (contains (blocks_of R s u) b && not (user == u && contains bs b))
  unfolding apply_all
  blocks-srem_list s user [] u b = ground arith
  blocks-srem_list s user (a ∷ bs) u b = ground (
    arith,
    eq_iff user u,
    contains-remove a (blocks_of R s user) b,
    contains-blocks_of R L s (subscriber user) (srem a) u b,
    blocks-srem_list (R.write s (subscriber user) (srem a)) user bs u b,
  )

  pub subscribers-srem_commands :
      (s : R.State) (d : Dict (List String)) (b u : String)
      → contains (subscribers_of R (apply_all R s (srem_commands d)) b) u
        ≡ contains (subscribers_of R s b) u
  unfolding srem_commands apply_all
  subscribers-srem_commands s [] b u = refl
  subscribers-srem_commands s ((user, bs) ∷ d) b u =
      ap (λ (t : R.State). contains (subscribers_of R t b) u)
        (apply_all-append s (srem_list user bs) (srem_commands d))
      ∙ subscribers-srem_commands (apply_all R s (srem_list user bs)) d b u
      ∙ subscribers-srem_list s user bs b u

  blocks-srem_commands :
      (s : R.State) (d : Dict (List String)) (u b : String)
      → contains (blocks_of R (apply_all R s (srem_commands d)) u) b
        ≡ (contains (blocks_of R s u) b && not (listed d u b))
  unfolding srem_commands apply_all
  blocks-srem_commands s [] u b = ground arith
  blocks-srem_commands s ((user, bs) ∷ d) u b =
      ap (λ (t : R.State). contains (blocks_of R t u) b)
        (apply_all-append s (srem_list user bs) (srem_commands d))
      ∙ ground (
        arith,
        blocks-srem_commands (apply_all R s (srem_list user bs)) d u b,
        blocks-srem_list s user bs u b,
      )

  abbrev pub delete_list : (String → Key) → List String → List (Key × Command)
  delete_list key bs = map (λ b. (key b, Command.delete)) bs

  pub subscribers-delete_blocks :
      (s : R.State) (bs : List String) (b u : String)
      → contains (subscribers_of R (apply_all R s (delete_list block bs)) b) u
        ≡ (contains (subscribers_of R s b) u && not (contains bs b))
  unfolding apply_all
  subscribers-delete_blocks s [] b u = ground arith
  subscribers-delete_blocks s (a ∷ bs) b u = ground (
    arith,
    contains-subscribers_of R L s (block a) Command.delete b u,
    subscribers-delete_blocks (R.write s (block a) Command.delete) bs b u,
  )

  blocks-delete_blocks :
      (s : R.State) (bs : List String) (u b : String)
      → contains (blocks_of R (apply_all R s (delete_list block bs)) u) b
        ≡ contains (blocks_of R s u) b
  unfolding apply_all
  blocks-delete_blocks s [] u b = refl
  blocks-delete_blocks s (a ∷ bs) u b =
      blocks-delete_blocks (R.write s (block a) Command.delete) bs u b
      ∙ contains-blocks_of R L s (block a) Command.delete u b

  pub delete_list-AllNeutral :
      (key : String → Key) (bs : List String)
      → ((b : String) → is_neutral (key b) ≡ true)
      → AllNeutral (delete_list key bs)
  delete_list-AllNeutral key bs h = map-AllKeys is_neutral key (λ b. Command.delete) bs h

  neutral_tail-IsMirrored :
      (s : R.State) (bs : List String)
      → IsMirrored R s
      → IsMirrored R (apply_all R s (delete_list blockdata bs ++ delete_list sandbox bs))
  neutral_tail-IsMirrored s bs h =
      rw (apply_all-append s (delete_list blockdata bs) (delete_list sandbox bs)) (
        apply_neutral-IsMirrored R L _ (delete_list sandbox bs)
          (delete_list-AllNeutral sandbox bs (λ b. refl))
          (apply_neutral-IsMirrored R L s (delete_list blockdata bs)
            (delete_list-AllNeutral blockdata bs (λ b. refl)) h))

  -- After the pipeline the deleted blocks have no subscribers, and are nobody's blocks.
  block_removal-IsMirrored :
      (s : R.State) (bs : List String)
      → IsMirrored R s
      → IsMirrored R (
          apply_all R
            (apply_all R s (srem_commands (user_blocks_of bs (entries_of R s bs) [])))
            (delete_list block bs))
  block_removal-IsMirrored s bs h u b =
      let d = user_blocks_of bs (entries_of R s bs) [] in
      let t = apply_all R s (srem_commands d) in
      ground (
        arith,
        h u b,
        subscribers-delete_blocks t bs b u,
        blocks-delete_blocks t bs u b,
        subscribers-srem_commands s d b u,
        blocks-srem_commands s d u b,
        listed-user_blocks_of R s bs [] u b,
      )

  pub unsubscribe_commands-IsMirrored :
      (s : R.State) (bs : List String)
      → IsMirrored R s
      → IsMirrored R (
          apply_all R s (
            srem_commands (user_blocks_of bs (map (R.view s) (map block bs)) [])
            ++ delete_commands bs))
  unfolding delete_commands
  unsubscribe_commands-IsMirrored s bs h =
      let srems = srem_commands (user_blocks_of bs (entries_of R s bs) []) in
      rw
        (
          apply_all-append s srems
              (delete_list block bs ++ (delete_list blockdata bs ++ delete_list sandbox bs)),
          apply_all-append (apply_all R s srems) (delete_list block bs)
              (delete_list blockdata bs ++ delete_list sandbox bs),
        )
        (neutral_tail-IsMirrored _ bs (block_removal-IsMirrored s bs h))
