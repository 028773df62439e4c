-- ===== src/Training/Episode/Trip.antt =====
-- Encrypted states that `Seal` makes, read by `Open`: internal/training/codec.go.
use Prim.Native.String.{len, ◌++◌ as append_text}
use text.Mathlib.TextPositions.{len-append}
use vorax_simulator.Base.{
  ℕ, ◌+◌, ◌≤◌, ◌≡◌, refl, ap, ◌∙◌, sym, subst, String, false, ltb, ◌==◌, Option, some, arith,
}
use vorax_simulator.Outcome.{ok, Returns, Returns-or_error, uncoded_error}
use vorax_simulator.Protocol.{GameState}
use vorax_simulator.Text.Split.{has_dot, dotted}
use vorax_simulator.Application.Library.{Library, IsDocumented}
use vorax_simulator.Application.Signer.{Signer, key_or_nil, parts}
use vorax_simulator.Application.Signer.Trip.{IsReady, three_parts, key_or_nil-found}
use vorax_simulator.Training.Episode.{
  Sealing, IsSealing, episode_aead, seal_episode, open_sealed, open_episode,
}

module _ (l : Library) (c : Sealing l) (documented : IsDocumented l) (sealing : IsSealing l c)
    (random : ℕ → Option l.Bytes)
    (random-size : (n : ℕ) (b : l.Bytes) → random n ≡ some b → l.size b ≡ n) (s : Signer l)
    (ready : IsReady l s) where
  open_sealed-seal :
      (state : GameState) (b nonce : l.Bytes) (aead : c.Aead)
      → l.marshal state ≡ some b
      → episode_aead l c ready.1.0 ≡ some aead
      → l.size nonce ≡ c.nonce_size aead
      → let aad = dotted "vte1" s.active in
        open_sealed l c s "vte1" s.active (l.encode (c.join nonce (c.seal_with aead nonce b aad)))
        ≡ ok state
  unfolding open_sealed
  open_sealed-seal state b nonce aead marshalled made sized =
      let aad : String = dotted "vte1" s.active in
      let body : l.Bytes = c.seal_with aead nonce b aad in
      let long : ltb (l.size (c.join nonce body)) (c.nonce_size aead + c.overhead aead) ≡ false =
        ground
          (arith, sealing.size-join nonce body, sealing.size-seal_with aead nonce b aad, sized) in
      rw
        (
          ready.1.1,
          made,
          documented.decode-encode (c.join nonce body),
          long,
          sealing.first-join (c.nonce_size aead) nonce body sized,
          sealing.rest-join (c.nonce_size aead) nonce body sized,
          sealing.open_with-seal_with aead nonce b aad sized,
          documented.unmarshal-marshal state b marshalled,
        )
        refl

  not_empty : (t : String) → (len (dotted (dotted "vte1" s.active) t) == 0) ≡ false
  not_empty t =
      let longer : len (dotted (dotted "vte1" s.active) t)
          ≡ len (dotted "vte1" s.active) + len (append_text "." t) =
        len-append (dotted "vte1" s.active) (append_text "." t) in
      let start : len (dotted "vte1" s.active) ≡ 4 + len (append_text "." s.active) =
        len-append "vte1" (append_text "." s.active) in
      ground (arith, longer, start)

  seal_episode-Opens :
      (state : GameState)
      → Returns
          (λ token. ltb 65536 (len token) ≡ false → open_episode l c s token ≡ ok state)
          (seal_episode l c random s state)
  unfolding seal_episode open_episode parts has_dot
  seal_episode-Opens state =
      let Q : String → Type 0 =
        λ token. ltb 65536 (len token) ≡ false → open_episode l c s token ≡ ok state in
      Returns-or_error Q (l.marshal state) uncoded_error _ λ b marshalled.
        Returns-or_error Q (episode_aead l c (key_or_nil l s s.active)) uncoded_error _ λ aead made.
          Returns-or_error Q (random (c.nonce_size aead)) uncoded_error _ λ nonce drawn short.
            let body : String =
              l.encode (c.join nonce (c.seal_with aead nonce b (dotted "vte1" s.active))) in
            rw
              (
                not_empty body,
                short,
                three_parts l "vte1" s.active body refl ready.0 (documented.encode-has_dot _),
              )
              (open_sealed-seal state b nonce aead marshalled
                (ap (episode_aead l c) (sym (key_or_nil-found l documented s ready)) ∙ made)
                (random-size (c.nonce_size aead) nonce drawn))

  -- With libraries that do what they document, a source of random bytes that gives as many as are
  -- asked for, and a signer with a good active key: an encrypted state that is not above 65536 bytes
  -- is opened to the state it was made from.
  pub open_episode-seal_episode :
      (state : GameState) (token : String)
      → seal_episode l c random s state ≡ ok token
      → len token ≤ 65536
      → open_episode l c s token ≡ ok state
  open_episode-seal_episode state token e short =
      subst (λ o. Returns (λ t. ltb 65536 (len t) ≡ false → open_episode l c s t ≡ ok state) o) e
        (seal_episode-Opens state) (ground arith)
