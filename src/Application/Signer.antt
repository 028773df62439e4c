-- ===== src/Application/Signer.antt =====
-- The signed saves: internal/application/signer.go.
pub mod Trip
use Prim.Native.String.{len, ◌++◌ as append_text}
use vorax_simulator.Base.{
  ℕ, String, Bool, not, ◌||◌, List, [], ◌∷◌, Option, none, some, str_eq, ltb, if◌then◌else◌,
}
use vorax_simulator.Outcome.{
  Outcome, ok, err, invalid_token, key_unavailable, uncoded_error, ◌>>=◌, ◌>>◌, error_if, or_error,
}
use vorax_simulator.Protocol.{GameState}
use vorax_simulator.Text.Split.{has_dot, split_dots, dotted}
use vorax_simulator.Application.Library.{Library}

module _ (l : Library) where
  -- The map of the keys, by their ids.
  pub record Signer : Type 0 where
    pub active : String
    pub keys : List (String × l.Bytes)

  unfoldable pub find_key : String → List (String × l.Bytes) → Option l.Bytes
  find_key id [] = none
  find_key id ((k, key) ∷ ks) = if str_eq k id then some key else find_key id ks

  -- `s.Keys[id]`, the nil slice where there is none.
  unfoldable pub key_or_nil : Signer → String → l.Bytes
  unfolding find_key
  key_or_nil s id = elim (find_key id s.keys) [ none ↦ l.no_bytes | some key ↦ key ]

  -- `NewSigner`
  unfoldable pub new_signer : String → l.Bytes → Outcome Signer
  new_signer id key = do
    error_if (str_eq id "" || (has_dot id || ltb (l.size key) 32)) uncoded_error
    ok (record { active = id; keys = (id, key) ∷ [] })

  -- `Seal`
  unfoldable pub seal : Signer → GameState → Outcome String
  unfolding key_or_nil
  seal s state = do
    b ← or_error (l.marshal state) uncoded_error
    let payload = dotted s.active (l.encode b)
    ok (dotted payload (l.encode (l.hmac (key_or_nil s s.active) payload)))

  -- The three parts of a save; any other number of parts is refused.
  unfoldable pub parts : List String → Outcome (String × (String × String))
  parts [] = err invalid_token
  parts (a ∷ []) = err invalid_token
  parts (a ∷ b ∷ []) = err invalid_token
  parts (a ∷ b ∷ c ∷ []) = ok (a, (b, c))
  parts (a ∷ b ∷ c ∷ d ∷ ts) = err invalid_token

  unfoldable open_parts : Signer → String → String → String → Outcome GameState
  unfolding find_key
  open_parts s id body signature = do
    key ← or_error (find_key id s.keys) key_unavailable
    sig ← or_error (l.decode signature) invalid_token
    error_if (not (l.same_bytes sig (l.hmac key (dotted id body)))) invalid_token
    b ← or_error (l.decode body) invalid_token
    or_error (l.unmarshal b) invalid_token

  -- `Open`
  unfoldable pub open_token : Signer → String → Outcome GameState
  unfolding parts open_parts
  open_token s token = do
    error_if (ltb 65536 (len token)) invalid_token
    (id, (body, signature)) ← parts (split_dots token)
    open_parts s id body signature
