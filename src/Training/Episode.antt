-- ===== src/Training/Episode.antt =====
-- The encrypted states of training games: internal/training/codec.go.
pub mod Trip
use Prim.Native.Char.{nul}
use Prim.Native.String.{len}
use vorax_simulator.Base.{
  ℕ, ◌+◌, String, Bool, not, ◌||◌, ltb, ◌==◌, ◌≡◌, List, Option, some, str_eq, if◌then◌else◌,
}
use vorax_simulator.Outcome.{
  Outcome, ok, err, invalid_token, key_unavailable, uncoded_error, ◌>>=◌, ◌>>◌, error_if, or_error,
}
use vorax_simulator.Protocol.{GameState}
use vorax_simulator.Text.Split.{split_dots, dotted}
use vorax_simulator.Application.Library.{Library}
use vorax_simulator.Application.Signer.{Signer, find_key, key_or_nil, parts}

-- What the codec calls of Go's standard library: slices of bytes, and AES in the GCM mode.
pub record Sealing (l : Library) : Type 1 where
  pub Aead : Type 0
  -- `aes.NewCipher(key)` and `cipher.NewGCM(block)`
  pub new_gcm : l.Bytes → Option Aead
  -- `append(key, []byte(text)...)`, `append(a, b...)`, `b[:n]` and `b[n:]`
  pub with_text : l.Bytes → String → l.Bytes
  pub join : l.Bytes → l.Bytes → l.Bytes
  pub first : ℕ → l.Bytes → l.Bytes
  pub rest : ℕ → l.Bytes → l.Bytes
  pub nonce_size : Aead → ℕ
  pub overhead : Aead → ℕ
  -- `aead.Seal(nil, nonce, plain, aad)`, which `Seal` appends to its first argument, and `aead.Open`
  pub seal_with : Aead → l.Bytes → l.Bytes → String → l.Bytes
  pub open_with : Aead → l.Bytes → l.Bytes → String → Option l.Bytes

-- What their documentation says, as far as the codec relies on it.
pub record IsSealing (l : Library) (c : Sealing l) : Type 0 where
  pub first-join : (k : ℕ) (a b : l.Bytes) → l.size a ≡ k → c.first k (c.join a b) ≡ a
  pub rest-join : (k : ℕ) (a b : l.Bytes) → l.size a ≡ k → c.rest k (c.join a b) ≡ b
  pub size-join : (a b : l.Bytes) → l.size (c.join a b) ≡ l.size a + l.size b
  pub size-seal_with :
      (aead : c.Aead) (nonce plain : l.Bytes) (aad : String)
      → l.size (c.seal_with aead nonce plain aad) ≡ l.size plain + c.overhead aead
  pub open_with-seal_with :
      (aead : c.Aead) (nonce plain : l.Bytes) (aad : String)
      → l.size nonce ≡ c.nonce_size aead
      → c.open_with aead nonce (c.seal_with aead nonce plain aad) aad ≡ some plain

module _ (l : Library) (c : Sealing l) where
  -- `episodeAEAD`
  unfoldable pub episode_aead : l.Bytes → Option c.Aead
  episode_aead key =
      c.new_gcm (l.sha256 (c.with_text key (String.◌∷◌ nul "vorax-training-episode-v1")))

  -- `Seal`; the argument is `rand.Read` into a slice of that size.
  unfoldable pub seal_episode : (ℕ → Option l.Bytes) → Signer l → GameState → Outcome String
  unfolding key_or_nil episode_aead
  seal_episode random s state = do
    b ← or_error (l.marshal state) uncoded_error
    aead ← or_error (episode_aead (key_or_nil l s s.active)) uncoded_error
    nonce ← or_error (random (c.nonce_size aead)) uncoded_error
    let aad = dotted "vte1" s.active
    ok (dotted aad (l.encode (c.join nonce (c.seal_with aead nonce b aad))))

  unfoldable pub open_sealed : Signer l → String → String → String → Outcome GameState
  unfolding find_key episode_aead
  open_sealed s prefix id body = do
    error_if (not (str_eq prefix "vte1")) invalid_token
    key ← or_error (find_key l id s.keys) key_unavailable
    aead ← or_error (episode_aead key) uncoded_error
    sealed ← or_error (l.decode body) invalid_token
    error_if (ltb (l.size sealed) (c.nonce_size aead + c.overhead aead)) invalid_token
    let nonce = c.first (c.nonce_size aead) sealed
    b ←
        or_error (c.open_with aead nonce (c.rest (c.nonce_size aead) sealed) (dotted prefix id))
          invalid_token
    or_error (l.unmarshal b) invalid_token

  -- `Open`
  unfoldable pub open_episode : Signer l → String → Outcome GameState
  unfolding parts open_sealed
  open_episode s token = do
    error_if (len token == 0 || ltb 65536 (len token)) invalid_token
    (prefix, (id, body)) ← parts l (split_dots token)
    open_sealed s prefix id body
