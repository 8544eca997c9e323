-- ===== src/ConfigFlags/Kept.antt =====
-- main/config_flags.cpp on a flash that holds what is written: what set and unset leave.
use power.Prelude.{
  ℕ, ◌≡◌, refl, ap, ◌∙◌, Bool, true, Option, none, some, ltb, if◌then◌else◌, length, Text, str_eq,
  Result, ok, err, nvs_not_found, other,
}
use power.ConfigFlags.Store.{
  Nvs, Config, Namespace, config, policy_ttl, missing_ok, and_then, erase_commit, ttl_erase,
  ttl_put, put_text,
}

-- What nvs_get_str returns for a text, or for none, with a buffer of `room` bytes.
abbrev pub read_text : Option Text → ℕ → Result Text
read_text none room = err nvs_not_found
read_text (some text) room = if ltb (length text) room then ok text else err (other 0x110c)

abbrev pub read_u32 : Option ℕ → Result ℕ
read_u32 none = err nvs_not_found
read_u32 (some n) = ok n

abbrev pub erased {ℓ} : {A : Type ℓ} → Option A → Result (Unit {0})
erased none = err nvs_not_found
erased (some a) = ok tt

-- `key` has the new content, and every other key what it had.
abbrev pub ReplacesAt {ℓ} :
    {A : Type ℓ} → Text → Option A → (Text → Option A) → (Text → Option A) → Type ℓ
ReplacesAt key new old now = (q : Text) → now q ≡ (if str_eq key q then new else old q)

-- A flash that opens, and holds what is written to it.
pub record IsKept {Flash : Type 0} (nvs : Nvs Flash) : Type 0 where
  pub value : Flash → Text → Option Text
  pub lifetime : Flash → Text → Option ℕ
  pub opens :
      (space : Namespace) (write : Bool) (flash : Flash) → nvs.nvs_open space write flash ≡ ok tt
  pub reads_text :
      (flash : Flash) (key : Text) (room : ℕ)
      → nvs.get_str flash key room ≡ read_text (value flash key) room
  pub reads_u32 :
      (flash : Flash) (key : Text) → nvs.get_u32 flash key ≡ read_u32 (lifetime flash key)
  pub writes_text :
      (flash : Flash) (key text : Text)
      → ((nvs.set_str flash key text).1 ≡ ok tt)
        × ReplacesAt key (some text) (value flash) (value (nvs.set_str flash key text).0)
        × (lifetime (nvs.set_str flash key text).0 ≡ lifetime flash)
  pub writes_u32 :
      (flash : Flash) (key : Text) (n : ℕ)
      → ((nvs.set_u32 flash key n).1 ≡ ok tt)
        × (value (nvs.set_u32 flash key n).0 ≡ value flash)
        × ReplacesAt key (some n) (lifetime flash) (lifetime (nvs.set_u32 flash key n).0)
  pub erases_text :
      (flash : Flash) (key : Text)
      → ((nvs.erase_key config flash key).1 ≡ erased (value flash key))
        × ReplacesAt key none (value flash) (value (nvs.erase_key config flash key).0)
        × (lifetime (nvs.erase_key config flash key).0 ≡ lifetime flash)
  pub erases_u32 :
      (flash : Flash) (key : Text)
      → ((nvs.erase_key policy_ttl flash key).1 ≡ erased (lifetime flash key))
        × (value (nvs.erase_key policy_ttl flash key).0 ≡ value flash)
        × ReplacesAt key none (lifetime flash) (lifetime (nvs.erase_key policy_ttl flash key).0)
  pub commits :
      (space : Namespace) (flash : Flash)
      → ((nvs.commit space flash).1 ≡ ok tt)
        × (value (nvs.commit space flash).0 ≡ value flash)
        × (lifetime (nvs.commit space flash).0 ≡ lifetime flash)

missing_ok-erased {ℓ} : {A : Type ℓ} (o : Option A) → missing_ok (erased o) ≡ ok tt
missing_ok-erased none = refl
missing_ok-erased (some a) = refl

pub and_then-ok :
    {A : Type 0} (first : A × Result (Unit {0})) (next : A → A × Result (Unit {0}))
    → first.1 ≡ ok tt
    → and_then first next ≡ next first.0
and_then-ok (s, ok tt) next done = refl
and_then-ok (s, err e) next done = cc

-- What an operation leaves of the two namespaces for one name.
abbrev pub Leaves :
    {Flash : Type 0} {nvs : Nvs Flash}
    → IsKept nvs
    → Flash × Result (Unit {0})
    → (Text → Option Text)
    → (Text → Option ℕ)
    → Type 0
Leaves kept after values lifetimes =
    (after.1 ≡ ok tt)
    × ((q : Text) → kept.value after.0 q ≡ values q)
    × ((q : Text) → kept.lifetime after.0 q ≡ lifetimes q)

module _ {Flash : Type 0} (nvs : Nvs Flash) (kept : IsKept nvs) where
  and_then-commit :
      (space : Namespace) (written : Flash × Result (Unit {0})) (values : Text → Option Text)
      (lifetimes : Text → Option ℕ)
      → Leaves kept written values lifetimes
      → Leaves kept (and_then written (nvs.commit space)) values lifetimes
  and_then-commit space written values lifetimes (done, v, l) =
      let (committed, same, same') = kept.commits space written.0 in
      rw (and_then-ok written (nvs.commit space) done)
        (committed, (λ q. ap (λ f. f q) same ∙ v q), (λ q. ap (λ f. f q) same' ∙ l q))

  pub ttl_erase-Leaves :
      (flash : Flash) (name : Text)
      → Leaves kept
          (ttl_erase nvs flash name)
          (kept.value flash)
          (λ q. if str_eq name q then none else kept.lifetime flash q)
  unfolding ttl_erase
  ttl_erase-Leaves flash name =
      let (done, v, l) = kept.erases_u32 flash name in
      let opened : ttl_erase nvs flash name ≡ erase_commit nvs policy_ttl flash name =
        rw (kept.opens policy_ttl true flash, ttl_erase) refl in
      rw opened (
        and_then-commit policy_ttl _ _ _ (
          ap missing_ok done ∙ missing_ok-erased (kept.lifetime flash name),
          (λ q. ap (λ f. f q) v),
          l,
        ))

  pub erase_text-Leaves :
      (flash : Flash) (name : Text)
      → Leaves kept
          (erase_commit nvs config flash name)
          (λ q. if str_eq name q then none else kept.value flash q)
          (kept.lifetime flash)
  erase_text-Leaves flash name =
      let (done, v, l) = kept.erases_text flash name in
      and_then-commit config _ _ _
        (ap missing_ok done ∙ missing_ok-erased (kept.value flash name), v, (λ q. ap (λ f. f q) l))

  pub ttl_put-Leaves :
      (flash : Flash) (name : Text) (lifetime_s : ℕ)
      → Leaves kept
          (ttl_put nvs flash name lifetime_s)
          (kept.value flash)
          (λ q. if str_eq name q then some lifetime_s else kept.lifetime flash q)
  ttl_put-Leaves flash name lifetime_s =
      let (done, v, l) = kept.writes_u32 flash name lifetime_s in
      rw (kept.opens policy_ttl true flash, ttl_put)
        (and_then-commit policy_ttl _ _ _ (done, (λ q. ap (λ f. f q) v), l))

  pub put_text-Leaves :
      (s : Config Flash) (name text : Text)
      → ((put_text nvs s name text).0.deadlines ≡ s.deadlines)
        × Leaves kept
            ((put_text nvs s name text).0.flash, (put_text nvs s name text).1)
            (λ q. if str_eq name q then some text else kept.value s.flash q)
            (kept.lifetime s.flash)
  put_text-Leaves s name text =
      let (done, v, l) = kept.writes_text s.flash name text in
      rw (kept.opens config true s.flash, put_text)
        (refl, and_then-commit config _ _ _ (done, v, (λ q. ap (λ f. f q) l)))
