-- ===== src/Queue/Laws.antt =====
-- What the queue relies on of the commands of Redis.
use browser_headless.Base.{
  ℕ, ◌≡◌, true, false, Option, none, some, List, [], ◌∷◌, ◌++◌, Text, text_eq, ok,
}
use browser_headless.Queue.{Redis}

-- The values that are stored and the payloads of a stream, as the server has them.
pub record View (S : Type 0) : Type 0 where
  pub value : S → Text → Option Text
  pub entries : S → Text → List Text

-- Only the value of the key may differ.
abbrev pub OnlyAt : {S : Type 0} → View S → Text → S → S → Type 0
OnlyAt v k s t = (j : Text) → text_eq k j ≡ false → v.value t j ≡ v.value s j

-- What the Redis documentation says of the commands, those that fail included: `SET … NX` writes where
-- there is no value and nowhere else, `XADD` appends (`MAXLEN` may drop older entries) and
-- `DEL` removes one key.
pub record IsLawful {S : Type 0} (r : Redis S) (v : View S) : Type 0 where
  pub get_lem : (s : S) (k : Text) (o : Option Text) → r.get s k ≡ ok o → o ≡ v.value s k
  pub set_other : (s : S) (k x : Text) (ttl : ℕ) → OnlyAt v k s (r.set_nx_ex s k x ttl).0
  pub set_entries :
      (s : S) (k x : Text) (ttl : ℕ) → v.entries (r.set_nx_ex s k x ttl).0 ≡ v.entries s
  pub set_held :
      (s : S) (k x y : Text) (ttl : ℕ)
      → v.value s k ≡ some y
      → v.value (r.set_nx_ex s k x ttl).0 k ≡ some y
  pub set_done :
      (s : S) (k x : Text) (ttl : ℕ)
      → (r.set_nx_ex s k x ttl).1 ≡ ok true
      → (v.value s k ≡ none) × (v.value (r.set_nx_ex s k x ttl).0 k ≡ some x)
  pub add_values :
      (s : S) (stream p : Text) (m : Option ℕ) → v.value (r.xadd s stream m p).0 ≡ v.value s
  pub add_done :
      (s : S) (stream p id : Text) (m : Option ℕ)
      → (r.xadd s stream m p).1 ≡ ok id
      → (kept : List Text) × (v.entries (r.xadd s stream m p).0 stream ≡ kept ++ (p ∷ []))
  pub del_other : (s : S) (k : Text) → OnlyAt v k s (r.del s k).0
  pub del_entries : (s : S) (k : Text) → v.entries (r.del s k).0 ≡ v.entries s
  pub del_done : (s : S) (k : Text) (n : ℕ) → (r.del s k).1 ≡ ok n → v.value (r.del s k).0 k ≡ none
