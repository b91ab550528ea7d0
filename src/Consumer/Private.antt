-- ===== src/Consumer/Private.antt =====
-- Who is told of a block in a private sandbox.
use omnimap_sync.Prelude.{
  String, Bool, true, false, not, ◌&&◌, ◌||◌, ◌==◌, eq_iff, Option, none, some, List, [], ◌∷◌, ◌++◌,
  Dict, contains, All, ◌≡◌, refl, sym, arith, append-nil, append_assoc, if◌then◌else◌,
}
use omnimap_sync.Prelude.Assoc
use omnimap_sync.Value.{Value}
use omnimap_sync.Models.{BlockUpdateResponse}
use omnimap_sync.Redis.{Entry}
use omnimap_sync.Env.{Env}
use omnimap_sync.Utils.RoundTrip.{has_distinct}
use omnimap_sync.Manager.Sandbox.{
  SandboxInfo, get_value, str_or_empty, filter_subscribers_for_private_sandbox,
}
use omnimap_sync.Consumer.Blocks.{authorized, cached_parent, add_update, group_updates}

module _ (E : Env) where
  -- A private sandbox shows a block to its creator and to the owner of the container.
  abbrev pub may_see : Option SandboxInfo → Dict Value → String → Bool
  may_see none block_data user = true
  may_see (some info) block_data user =
      not (info.mode == "private")
      || (user == str_or_empty E.runtime (get_value block_data "creator_id")
          || user == info.creator_id)

  contains-filter :
      (users : List String) (creator : Value) (owner user : String)
      → contains (filter_subscribers_for_private_sandbox E.runtime users creator owner) user
        ≡ (contains users user && (user == str_or_empty E.runtime creator || user == owner))
  unfolding filter_subscribers_for_private_sandbox
  contains-filter [] creator owner user = refl
  contains-filter (u ∷ users) creator owner user =
      ground (arith, contains-filter users creator owner user, eq_iff u user, eq_iff user u)

  -- A user is told of a block exactly if subscribed to it and allowed to see it.
  pub contains-authorized :
      (info : Option SandboxInfo) (block_data : Dict Value) (users : List String) (user : String)
      → contains (authorized E info block_data users) user
        ≡ (contains users user && may_see info block_data user)
  unfolding authorized
  contains-authorized none block_data users user = ground arith
  contains-authorized (some info) block_data users user =
      ground (arith, contains-filter users (get_value block_data "creator_id") info.creator_id user)

  filter-distinct :
      (users : List String) (creator : Value) (owner : String)
      → has_distinct users ≡ true
      → has_distinct (filter_subscribers_for_private_sandbox E.runtime users creator owner) ≡ true
  unfolding filter_subscribers_for_private_sandbox
  filter-distinct [] creator owner h = refl
  filter-distinct (u ∷ users) creator owner h =
      ground (arith, contains-filter users creator owner u, filter-distinct users creator owner)

  authorized-distinct :
      (info : Option SandboxInfo) (block_data : Dict Value) (users : List String)
      → has_distinct users ≡ true
      → has_distinct (authorized E info block_data users) ≡ true
  unfolding authorized
  authorized-distinct none block_data users h = h
  authorized-distinct (some info) block_data users h =
      ground (arith, filter-distinct users (get_value block_data "creator_id") info.creator_id)

  -- The updates that a user is sent so far.
  abbrev pub updates_for : Dict (List BlockUpdateResponse) → String → List BlockUpdateResponse
  updates_for grouped user = elim (Assoc.get grouped user) [ none ↦ [] | some us ↦ us ]

  updates_for-put :
      (grouped : Dict (List BlockUpdateResponse)) (u : String) (us : List BlockUpdateResponse)
      (user : String)
      → updates_for (Assoc.put grouped u us) user
        ≡ (if u == user then us else updates_for grouped user)
  updates_for-put grouped u us user =
      rw (updates_for, Assoc.get-put grouped u us user) (ground arith)

  updates_for-add_update :
      (update : BlockUpdateResponse) (users : List String)
      (grouped : Dict (List BlockUpdateResponse)) (user : String)
      → has_distinct users ≡ true
      → updates_for (add_update E update users grouped) user ≡ (
          if contains users user
          then updates_for grouped user ++ update ∷ []
          else updates_for grouped user)
  unfolding add_update
  updates_for-add_update update [] grouped user h = refl
  updates_for-add_update update (u ∷ users) grouped user h =
      rw
        (
          updates_for-add_update update users
              (Assoc.put grouped u (updates_for grouped u ++ update ∷ [])) user (ground arith),
          updates_for-put grouped u (updates_for grouped u ++ update ∷ []) user,
        )
        (ground (arith, eq_iff u user))

  -- What a user should be sent of a batch: in the order of the blocks, the update of each block that
  -- the user subscribes to and may see.
  abbrev pub updates_due :
      Dict SandboxInfo → Dict (Dict Value) → List Entry → String → List BlockUpdateResponse
  updates_due cache [] entries user = []
  updates_due cache (b ∷ blocks) [] user = []
  updates_due cache ((uuid, block_data) ∷ blocks) (entry ∷ entries) user =
      let rest = updates_due cache blocks entries user in
      if contains entry.members user && may_see (cached_parent E cache block_data) block_data user
      then record { block_uuid = uuid; content = block_data } ∷ rest
      else rest

  abbrev pub AllDistinct : List Entry → Type 0
  AllDistinct = All (λ e. has_distinct e.members ≡ true)

  append_if :
      (taken : Bool) (xs ys : List BlockUpdateResponse) (x : BlockUpdateResponse)
      → (if taken then xs ++ x ∷ [] else xs) ++ ys ≡ xs ++ (if taken then x ∷ ys else ys)
  append_if true xs ys x = append_assoc xs (x ∷ []) ys
  append_if false xs ys x = refl

  updates_for-group_updates_from :
      (cache : Dict SandboxInfo) (blocks : Dict (Dict Value)) (entries : List Entry)
      (grouped : Dict (List BlockUpdateResponse)) (user : String)
      → AllDistinct entries
      → updates_for (group_updates E cache blocks entries grouped) user
        ≡ updates_for grouped user ++ updates_due cache blocks entries user
  unfolding group_updates
  updates_for-group_updates_from cache [] entries grouped user h = sym (append-nil _)
  updates_for-group_updates_from cache (b ∷ blocks) [] grouped user h = sym (append-nil _)
  updates_for-group_updates_from cache ((uuid, d) ∷ blocks) (entry ∷ entries) grouped user h =
      rw
        (
          updates_for-group_updates_from cache blocks entries
              (add_update E (record { block_uuid = uuid; content = d })
                (authorized E (cached_parent E cache d) d entry.members) grouped)
              user h.1,
          updates_for-add_update (record { block_uuid = uuid; content = d })
              (authorized E (cached_parent E cache d) d entry.members) grouped user
              (authorized-distinct (cached_parent E cache d) d entry.members h.0),
          contains-authorized (cached_parent E cache d) d entry.members user,
        )
        (append_if (contains entry.members user && may_see (cached_parent E cache d) d user)
          (updates_for grouped user) (updates_due cache blocks entries user)
          (record { block_uuid = uuid; content = d }))

  -- If the replies list no subscriber of a block twice, then each user is sent, of a batch, the
  -- updates of exactly those blocks that the user subscribes to and may see, in the order of the
  -- blocks.
  pub updates_for-group_updates :
      (cache : Dict SandboxInfo) (blocks : Dict (Dict Value)) (entries : List Entry) (user : String)
      → AllDistinct entries
      → updates_for (group_updates E cache blocks entries []) user
        ≡ updates_due cache blocks entries user
  updates_for-group_updates cache blocks entries user h =
      updates_for-group_updates_from cache blocks entries [] user h
