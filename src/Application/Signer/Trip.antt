-- ===== src/Application/Signer/Trip.antt =====
-- Saves that `Seal` makes, and what `Open` accepts: internal/application/signer.go.
use Prim.Native.String.{len, ◌++◌ as append_text}
use vorax_simulator.Base.{
  ◌≤◌, ◌≡◌, refl, ap, ◌∙◌, subst, String, Bool, true, false, not, ltb, List, [], ◌∷◌, Option, none,
  some, arith, str_eq_iff,
}
use vorax_simulator.Outcome.{
  Error, ok, Returns, Returns-guard, Returns-guarded, Returns-or_error, uncoded_error,
  invalid_token, key_unavailable, or_error, error_if, ◌>>=◌, ◌>>◌,
}
use vorax_simulator.Protocol.{GameState}
use vorax_simulator.Text.Split.{
  has_dot, split_dots, dotted, append_assoc, split_dots-same, split_dots-dotted,
}
use vorax_simulator.Application.Library.{Library, IsDocumented}
use vorax_simulator.Application.Signer.{
  Signer, find_key, key_or_nil, new_signer, seal, parts, open_parts, open_token,
}

module _ (l : Library) where
  -- The id of the active key has no dot, and there is such a key.
  abbrev pub IsReady : Signer l → Type 0
  IsReady s =
      (has_dot s.active ≡ false) × ((key : l.Bytes) × (find_key l s.active s.keys ≡ some key))

  dotted_assoc : (a b c : String) → dotted (dotted a b) c ≡ dotted a (dotted b c)
  dotted_assoc a b c =
      append_assoc a (append_text "." b) (append_text "." c)
      ∙ ap (λ x. append_text a x) (append_assoc "." b (append_text "." c))

  pub three_parts :
      (a b c : String)
      → has_dot a ≡ false
      → has_dot b ≡ false
      → has_dot c ≡ false
      → split_dots (dotted (dotted a b) c) ≡ a ∷ b ∷ c ∷ []
  three_parts a b c ha hb hc =
      ap split_dots (dotted_assoc a b c)
      ∙ split_dots-dotted a (dotted b c) ha
      ∙ ap (λ ts. a ∷ ts) (split_dots-dotted b c hb ∙ ap (λ ts. b ∷ ts) (split_dots-same c hc))

  module _ (documented : IsDocumented l) (s : Signer l) (ready : IsReady s) where
    pub key_or_nil-found : key_or_nil l s s.active ≡ ready.1.0
    unfolding key_or_nil
    key_or_nil-found = rw (key_or_nil, ready.1.1) refl

    open_parts-seal :
        (state : GameState) (b : l.Bytes)
        → l.marshal state ≡ some b
        → let body = l.encode b in
          open_parts l s s.active body
            (l.encode (l.hmac (key_or_nil l s s.active) (dotted s.active body)))
          ≡ ok state
    unfolding open_parts
    open_parts-seal state b e =
        let (key, found) = ready.1 in
        rw
          (
            key_or_nil-found,
            found,
            documented.decode-encode (l.hmac key (dotted s.active (l.encode b))),
            documented.same_bytes-refl (l.hmac key (dotted s.active (l.encode b))),
            documented.decode-encode b,
            documented.unmarshal-marshal state b e,
          )
          refl

    sealed :
        (state : GameState) (o : Option l.Bytes)
        → l.marshal state ≡ o
        → Returns
            (λ token. ltb 65536 (len token) ≡ false → open_token l s token ≡ ok state)
            (do
              b ← or_error o uncoded_error
              let payload = dotted s.active (l.encode b)
              ok (dotted payload (l.encode (l.hmac (key_or_nil l s s.active) payload))))
    unfolding open_token parts
    sealed state none e = tt
    sealed state (some b) e = λ short.
        rw
          (
            short,
            three_parts s.active (l.encode b)
                (l.encode (l.hmac (key_or_nil l s s.active) (dotted s.active (l.encode b)))) ready.0
                (documented.encode-has_dot b)
                (documented.encode-has_dot
                  (l.hmac (key_or_nil l s s.active) (dotted s.active (l.encode b)))),
          )
          (open_parts-seal state b e)

    pub seal-Opens :
        (state : GameState)
        → Returns
            (λ token. ltb 65536 (len token) ≡ false → open_token l s token ≡ ok state)
            (seal l s state)
    unfolding seal
    seal-Opens state = sealed state (l.marshal state) refl

  only_key : (id : String) (key : l.Bytes) → find_key l id ((id, key) ∷ []) ≡ some key
  unfolding find_key
  only_key id key = rw ((str_eq_iff id id).1 refl) refl

  ready_unless :
      (id : String) (key : l.Bytes) (refused : Bool)
      → (refused ≡ false → has_dot id ≡ false)
      → Returns IsReady
          (do error_if refused uncoded_error; ok (record { active = id; keys = (id, key) ∷ [] }))
  ready_unless id key true plain = tt
  ready_unless id key false plain = (plain refl, (key, only_key id key))

  new_signer-IsReady : (id : String) (key : l.Bytes) → Returns IsReady (new_signer l id key)
  unfolding new_signer
  new_signer-IsReady id key = ready_unless id key _ (λ h. ground arith)

  -- With libraries that do what they document: a save that `Seal` makes with a signer from
  -- `NewSigner`, and that is not above 65536 bytes, is opened by that signer to the state it was made
  -- from.
  pub open_token-seal :
      (documented : IsDocumented l) (id : String) (key : l.Bytes) (s : Signer l) (state : GameState)
      (token : String)
      → new_signer l id key ≡ ok s
      → seal l s state ≡ ok token
      → len token ≤ 65536
      → open_token l s token ≡ ok state
  open_token-seal documented id key s state token made e short =
      let ready : IsReady s = subst (λ o. Returns IsReady o) made (new_signer-IsReady id key) in
      subst (λ o. Returns (λ t. ltb 65536 (len t) ≡ false → open_token l s t ≡ ok state) o) e
        (seal-Opens documented s ready state) (ground arith)

  -- A save has three parts, of which the last is the MAC of the others under the key that the first
  -- names, as far as the comparison of MACs tells.
  pub record IsSigned (s : Signer l) (token : String) : Type 0 where
    pub id : String
    pub body : String
    pub signature : String
    pub key : l.Bytes
    pub mac : l.Bytes
    pub split : split_dots token ≡ id ∷ body ∷ signature ∷ []
    pub known : find_key l id s.keys ≡ some key
    pub decoded : l.decode signature ≡ some mac
    pub agrees : l.same_bytes mac (l.hmac key (dotted id body)) ≡ true

  signed_at : (Q : Type 0) (o : Option GameState) (e : Error) → Q → Returns (λ _. Q) (or_error o e)
  signed_at Q none e h = tt
  signed_at Q (some state) e h = h

  module _ (s : Signer l) (token : String) where
    open_parts-IsSigned :
        (id body signature : String)
        → split_dots token ≡ id ∷ body ∷ signature ∷ []
        → Returns (λ _. IsSigned s token) (open_parts l s id body signature)
    unfolding open_parts
    open_parts-IsSigned id body signature e =
        let Q : GameState → Type 0 = λ _. IsSigned s token in
        Returns-or_error Q (find_key l id s.keys) key_unavailable _ λ key known.
          Returns-or_error Q (l.decode signature) invalid_token _ λ mac decoded.
            Returns-guarded Q (not (l.same_bytes mac (l.hmac key (dotted id body)))) invalid_token _
              λ same. Returns-or_error Q (l.decode body) invalid_token _ λ b _.
                signed_at (IsSigned s token) (l.unmarshal b) invalid_token (record {
                  id = id;
                  body = body;
                  signature = signature;
                  key = key;
                  mac = mac;
                  split = e;
                  known = known;
                  decoded = decoded;
                  agrees = ground arith;
                })

    parts_lem :
        (ts : List String)
        → split_dots token ≡ ts
        → Returns
            (λ _. IsSigned s token)
            (do (id, (body, signature)) ← parts l ts; open_parts l s id body signature)
    unfolding parts
    parts_lem [] e = tt
    parts_lem (a ∷ []) e = tt
    parts_lem (a ∷ b ∷ []) e = tt
    parts_lem (a ∷ b ∷ c ∷ []) e = open_parts-IsSigned a b c e
    parts_lem (a ∷ b ∷ c ∷ d ∷ ts) e = tt

    -- `Open` gives a state only for a text of three parts, the last of which decodes to a MAC that
    -- agrees with the MAC of the first two, under the key that the first part names.
    pub open_token-IsSigned : Returns (λ _. IsSigned s token) (open_token l s token)
    unfolding open_token
    open_token-IsSigned =
        Returns-guard (λ _. IsSigned s token) _ _ _ (parts_lem (split_dots token) refl)
