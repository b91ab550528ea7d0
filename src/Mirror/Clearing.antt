-- ===== src/Mirror/Clearing.antt =====
-- What the pipeline of action_unsubscribe, in app/rabbitmq_consumer.py, leaves of a block.
use omnimap_sync.Prelude.{
  String, Bool, true, false, not, ◌&&◌, List, [], ◌∷◌, ◌++◌, map, contains, All, Dict, ◌≡◌, refl,
  arith, ap, ◌∙◌, if◌then◌else◌,
}
use omnimap_sync.Redis.{
  Key, block, blockdata, subscriber, sandbox, Command, srem, Entry, same_key, Redis, IsLawful,
}
use omnimap_sync.World.{apply_all}
use omnimap_sync.Consumer.Access.{srem_commands, delete_commands}
use omnimap_sync.Consumer.Pipelines.{apply_all-AllKeys}
use omnimap_sync.Mirror.{is_neutral, subscribers_of, AllNeutral}
use omnimap_sync.Mirror.Steps.{}
use omnimap_sync.Mirror.Effects.{AreSubscribers, AreSubscribers-IgnoresNeutral}
use omnimap_sync.Mirror.Removal.{
  apply_all-append, subscribers-delete_blocks, subscribers-srem_commands, delete_list-AllNeutral,
}

abbrev is_blockdata : Key → Bool
is_blockdata (blockdata b) = true
is_blockdata _ = false

abbrev AllOther : List (Key × Command) → Type 0
AllOther = All (λ c. is_blockdata c.0 ≡ false)

AllOther-append : (cs ds : List (Key × Command)) → AllOther cs → AllOther ds → AllOther (cs ++ ds)
AllOther-append [] ds h k = k
AllOther-append (c ∷ cs) ds h k = (h.0, AllOther-append cs ds h.1 k)

srems-AllOther :
    (user : String) (bs : List String) → AllOther (map (λ b. (subscriber user, srem b)) bs)
srems-AllOther user [] = tt
srems-AllOther user (b ∷ bs) = (refl, srems-AllOther user bs)

srem_commands-AllOther : (d : Dict (List String)) → AllOther (srem_commands d)
unfolding srem_commands
srem_commands-AllOther [] = tt
srem_commands-AllOther ((user, bs) ∷ d) =
    AllOther-append _ (srem_commands d) (srems-AllOther user bs) (srem_commands-AllOther d)

blocks-AllOther : (bs : List String) → AllOther (map (λ b. (block b, Command.delete)) bs)
blocks-AllOther [] = tt
blocks-AllOther (b ∷ bs) = (refl, blocks-AllOther bs)

sandboxes-AllOther : (bs : List String) → AllOther (map (λ b. (sandbox b, Command.delete)) bs)
sandboxes-AllOther [] = tt
sandboxes-AllOther (b ∷ bs) = (refl, sandboxes-AllOther bs)

module _ (R : Redis) (L : IsLawful R) where
  -- The data of a block.
  abbrev pub data_of : R.State → String → Dict String
  data_of s b = (R.view s (blockdata b)).fields

  other_key : (k : Key) (b : String) → is_blockdata k ≡ false → same_key k (blockdata b) ≡ false
  other_key (blockdata a) b h = cc
  other_key _ b h = refl

  pub data_of-write :
      (s : R.State) (k : Key) (c : Command) (b : String)
      → same_key k (blockdata b) ≡ false
      → data_of (R.write s k c) b ≡ data_of s b
  data_of-write s k c b e =
      ap (λ (x : Entry). x.fields) (rw e at (L.view-write s k c (blockdata b)))

  data_of-others :
      (s : R.State) (cs : List (Key × Command)) (b : String)
      → AllOther cs
      → data_of (apply_all R s cs) b ≡ data_of s b
  unfolding apply_all
  data_of-others s [] b h = refl
  data_of-others s ((k, c) ∷ cs) b h =
      data_of-others (R.write s k c) cs b h.1 ∙ data_of-write s k c b (other_key k b h.0)

  data_of-deletes :
      (s : R.State) (bs : List String) (b : String)
      → data_of (apply_all R s (map (λ a. (blockdata a, Command.delete)) bs)) b
        ≡ (if contains bs b then [] else data_of s b)
  unfolding apply_all
  data_of-deletes s [] b = refl
  data_of-deletes s (a ∷ bs) b = ground (
    arith,
    data_of-deletes (R.write s (blockdata a) Command.delete) bs b,
    ap (λ (x : Entry). x.fields) (L.view-write s (blockdata a) Command.delete (blockdata b)),
  )

  same_subscribers :
      (s : R.State) (cs : List (Key × Command))
      → AllNeutral cs
      → (b v : String)
      → contains (subscribers_of R (apply_all R s cs) b) v ≡ contains (subscribers_of R s b) v
  same_subscribers s cs n =
      let target : String → String → Bool = λ b v. contains (subscribers_of R s b) v in
      apply_all-AllKeys is_neutral R (AreSubscribers R L target)
        (AreSubscribers-IgnoresNeutral R L target) s cs n (λ b v. refl)

  module _ (s : R.State) (d : Dict (List String)) (bs : List String) where
    abbrev srems : R.State
    srems = apply_all R s (srem_commands d)

    abbrev unblocked : R.State
    unblocked = apply_all R srems (map (λ b. (block b, Command.delete)) bs)

    abbrev emptied : R.State
    emptied = apply_all R unblocked (map (λ b. (blockdata b, Command.delete)) bs)

    -- The pipeline, one kind of commands after the other.
    stages :
        apply_all R s (srem_commands d ++ delete_commands bs)
        ≡ apply_all R emptied (map (λ b. (sandbox b, Command.delete)) bs)
    unfolding delete_commands
    stages =
        let blocks = map (λ b. (block b, Command.delete)) bs in
        let rows = map (λ b. (blockdata b, Command.delete)) bs in
        let sandboxes = map (λ b. (sandbox b, Command.delete)) bs in
        apply_all-append R L s (srem_commands d) (blocks ++ (rows ++ sandboxes))
        ∙ apply_all-append R L srems blocks (rows ++ sandboxes)
        ∙ apply_all-append R L unblocked rows sandboxes

    pub data_of-cleared :
        (b : String)
        → data_of (apply_all R s (srem_commands d ++ delete_commands bs)) b
          ≡ (if contains bs b then [] else data_of s b)
    data_of-cleared b =
        ap (λ t. data_of t b) stages
        ∙ data_of-others emptied (map (λ a. (sandbox a, Command.delete)) bs) b
            (sandboxes-AllOther bs)
        ∙ data_of-deletes unblocked bs b
        ∙ ap (λ row. if contains bs b then [] else row)
            (data_of-others srems (map (λ a. (block a, Command.delete)) bs) b (blocks-AllOther bs)
              ∙ data_of-others s (srem_commands d) b (srem_commands-AllOther d))

    pub subscribers-cleared :
        (b v : String)
        → contains (subscribers_of R (apply_all R s (srem_commands d ++ delete_commands bs)) b) v
          ≡ (contains (subscribers_of R s b) v && not (contains bs b))
    subscribers-cleared b v =
        ap (λ t. contains (subscribers_of R t b) v) stages
        ∙ same_subscribers emptied (map (λ a. (sandbox a, Command.delete)) bs)
            (delete_list-AllNeutral R L sandbox bs (λ b. refl)) b v
        ∙ same_subscribers unblocked (map (λ a. (blockdata a, Command.delete)) bs)
            (delete_list-AllNeutral R L blockdata bs (λ b. refl)) b v
        ∙ subscribers-delete_blocks R L srems bs b v
        ∙ ap (λ t. t && not (contains bs b)) (subscribers-srem_commands R L s d b v)
