-- ===== src/Redis/Keys.antt =====
-- The texts that the code builds for its keys, three of them from settings.
use Prim.Native.Char.{code}
use text.Mathlib.TextLemmas.{append_cancel_left, append_cancel_right, cons-append}
use omnimap_sync.Prelude.{
  ℕ, String, ◌<>◌, Bool, true, false, ◌≡◌, refl, ◌∙◌, sym, ap, arith, eq_iff, eqb, if◌then◌else◌,
  zero, suc, ◌+◌, ◌*◌,
}
use omnimap_sync.Config.{Settings}
use omnimap_sync.Redis.{
  Key, block, blockdata, subscriber, sandbox, user_online, subscription_version, changelog,
  changelog_seq, same_key,
}

unfoldable pub render : Settings → Key → String
render st (block b) = "block:" <> b
render st (blockdata b) = "blockdata:" <> b
render st (subscriber u) = "subscriber:" <> (u <> ":blocks")
render st (sandbox b) = "sandbox:" <> b
render st (user_online u) = "user_online:" <> u
render st (subscription_version u) = st.subscription_version_key_prefix <> u
render st changelog = st.changelog_key
render st changelog_seq = st.changelog_seq_key

-- The settings of the keys are the defaults of app/config.py.
pub record HasDefaultKeys (st : Settings) : Type 0 where
  pub changelog_key : st.changelog_key ≡ "sync:changelog"
  pub changelog_seq_key : st.changelog_seq_key ≡ "sync:seq"
  pub prefix : st.subscription_version_key_prefix ≡ "sync:subver:"

-- The code of a character of a text, by its place; 0 past the end.
abbrev code_at : String → ℕ → ℕ
code_at String.[] n = 0
code_at (String.◌∷◌ c s) zero = code c
code_at (String.◌∷◌ c s) (suc n) = code_at s n

abbrev in_range : String → ℕ → Bool
in_range String.[] n = false
in_range (String.◌∷◌ c s) zero = true
in_range (String.◌∷◌ c s) (suc n) = in_range s n

code_at-append : (a b : String) (n : ℕ) → in_range a n ≡ true → code_at (a <> b) n ≡ code_at a n
code_at-append String.[] b n h = cc
code_at-append (String.◌∷◌ c a) b zero h = rw cons-append
code_at-append (String.◌∷◌ c a) b (suc n) h = rw cons-append (code_at-append a b n h)

-- Enough of a key's text to tell its pattern.
classify : String → ℕ
classify s =
    code_at s 1 * 1000
    + (if eqb (code_at s 1) b'y'
        then code_at s 6
        else if eqb (code_at s 1) b'l'
        then code_at s 5
        else 0)

kind : Key → ℕ
unfolding classify
kind (block b) = classify "block:"
kind (blockdata b) = classify "blockdata:"
kind (subscriber u) = classify "subscriber:"
kind (sandbox b) = classify "sandbox:"
kind (user_online u) = classify "user_online:"
kind (subscription_version u) = classify "sync:subver:"
kind changelog = classify "sync:changelog"
kind changelog_seq = classify "sync:seq"

module _ (st : Settings) (d : HasDefaultKeys st) where
  classify-render : (k : Key) → classify (render st k) ≡ kind k
  unfolding kind render
  classify-render (block b) =
      rw (code_at-append "block:" b 1 refl, code_at-append "block:" b 5 refl)
  classify-render (blockdata b) =
      rw (code_at-append "blockdata:" b 1 refl, code_at-append "blockdata:" b 5 refl)
  classify-render (subscriber u) = rw (code_at-append "subscriber:" (u <> ":blocks") 1 refl)
  classify-render (sandbox b) = rw (code_at-append "sandbox:" b 1 refl)
  classify-render (user_online u) = rw (code_at-append "user_online:" u 1 refl)
  classify-render (subscription_version u) =
      rw (d.prefix, code_at-append "sync:subver:" u 1 refl, code_at-append "sync:subver:" u 6 refl)
  classify-render changelog = rw d.changelog_key refl
  classify-render changelog_seq = rw d.changelog_seq_key refl

  same_kind : (k j : Key) → render st k ≡ render st j → kind k ≡ kind j
  same_kind k j h = sym (classify-render k) ∙ ap classify h ∙ classify-render j

  -- Under the default settings of the keys, two Redis keys with one text are the same key, so no user
  -- id or block id makes one key collide with another.
  pub render-injective : (k j : Key) → render st k ≡ render st j → same_key k j ≡ true
  unfolding render kind
  render-injective (block a) (block b) h = (eq_iff a b).1 (append_cancel_left "block:" a b h)
  render-injective (blockdata a) (blockdata b) h =
      (eq_iff a b).1 (append_cancel_left "blockdata:" a b h)
  render-injective (subscriber a) (subscriber b) h = (eq_iff a b).1 (
      append_cancel_right a b ":blocks"
        (append_cancel_left "subscriber:" (a <> ":blocks") (b <> ":blocks") h))
  render-injective (sandbox a) (sandbox b) h = (eq_iff a b).1 (append_cancel_left "sandbox:" a b h)
  render-injective (user_online a) (user_online b) h =
      (eq_iff a b).1 (append_cancel_left "user_online:" a b h)
  render-injective (subscription_version a) (subscription_version b) h = (eq_iff a b).1 (
      append_cancel_left "sync:subver:" a b
        (sym (ap (λ p. p <> a) d.prefix) ∙ h ∙ ap (λ p. p <> b) d.prefix))
  render-injective changelog changelog h = refl
  render-injective changelog_seq changelog_seq h = refl
  render-injective k j h = absurd (omega (arith, same_kind k j h))
