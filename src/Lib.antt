-- ===== src/Lib.antt =====
-- A model of Vorax, an auto-battler: a game is a saved state, a command yields the next state and the
-- events to show. The engine is the package internal/engine. The service (internal/application) hands
-- the state to the player as a signed text, takes it back with each command, and replays games; agents
-- (internal/ai) see what a player sees and try moves on a state rebuilt from it.
--
-- The parts, by file:
-- - Protocol: the messages of api/game.proto, as records and data types; Outcome: what a Go function
--   may do (a value, an error by its code, a panic); Text: the numbers in ids, and in
--   Text.Split the parts of a text between dots.
-- - Rules (internal/engine/rules.go, with the cards of potions.go and tools.go in its children) and
--   Monsters (internal/engine/monsters.go): the catalogues and their validation.
-- - Random and Streams (internal/engine/random.go): SplitMix64 and the unbiased draw `randomN`, and the
--   three streams of a state.
-- - Board: the six slots, with lookups and writes as internal/engine makes them. Board.Valid says when
--   a board is sound.
-- - Rewards (internal/engine/rewards.go): scores, jars, claims. Targets: `validTargets` and
--   `LegalTargets` of internal/engine/engine.go.
-- - Offers: `makeOffer` and `advance` of internal/engine/engine.go; its children are
--   internal/engine/boxes.go and internal/engine/tool_offers.go.
-- - Effects: `context` of internal/engine/effects.go. Context has its steps as a monad; Monsters,
--   Fusion and Selection its methods; ToolHandlers (internal/engine/tools.go) and PotionHandlers
--   (internal/engine/potions.go) one clause per handler; Play has `emit`, which fires the tools, whose
--   handlers call the methods, which emit again.
--   Effects.Closed walks through all handlers once, for any relation on steps that the methods keep;
--   Effects.Sound and Effects.Anonymous use it, the one for soundness, the other for a change of names.
-- - Validation and Engine: `ValidateState`, `New` and `Apply` of internal/engine/engine.go; Engine.View
--   has `View`, and `GameplayCopy` of internal/engine/effects.go. Streams.Named, Offers.Named and
--   Engine.Named follow a change of the names of run and player through all of these.
-- - Application: Library has what the service calls of other libraries, with what these document;
--   Signer is internal/application/signer.go and Service is internal/application/service.go.
-- - Agents: Observation is internal/ai/obs.go, Actions and Rebuild internal/ai/env.go, Visible
--   internal/ai/visible.go. Flow, Progress and Offered compare what a screen may show with the engine,
--   Places and Boards the places of monsters with their ids, Legal the actions with the commands.
-- - Training: Episode is internal/training/codec.go, with AES-GCM as the parameter Sealing.
-- - Scenarios: runs at concrete inputs; its children have those of the service, of screens and of
--   training.
--
-- How state corresponds: `Apply` clones the state and works on the clone through a pointer; here each
-- method takes the context and returns it. A pointer to a monster taken from the board is the monster
-- with its id, read again where the code reads a field after events have fired; the earlier value
-- stands in only where the monster has left the board. An error that a method meets stays in the
-- context, as `c.err` does, and later steps look at it where the code looks at it. A card that is
-- taken out of a pool as a pointer is taken out by its id, which validated rules have once.
--
-- Bounds and fuel: uint64 counters and streams are natural numbers with the remainder by 2 ^ 64 written
-- out; the sums, differences and products of `checkedAdd` and `contribution` are those of int64, and
-- rarities are sums of int32, with their wrap-around. `emit` has
-- 513 levels of fuel, one more than the limit of steps, since each nested call counts a step first.
-- `randomN` has as many rounds as the bound has numbers; `LegalTargets` is as deep as there are
-- monsters; "goat_suture" has a round for each monster of the group.
--
-- Parameters: HMAC, SHA-256, hex, base64 and the protobuf encoding are fields of Application.Library;
-- IsDocumented has what they document (a decoded encoding is the value again, the alphabet of base64 has
-- no dot, equal MACs compare equal, a digest in hex is not empty), and Scenarios.Saves has a library
-- that does. The words of `math/rand` in the simulation of an agent and the digest of an observation are
-- arguments, as are the random bytes of a nonce; the recorder of transitions is an argument of the service.
--
-- Not modelled: texts that are only shown (names, descriptions, messages of events and of errors, where
-- the code of an error is kept); a nil state, and nil slots, rewards, claims and cards, which neither `New`
-- nor a save of it has;
-- enum numbers outside api/game.proto of phases, kinds of card, claims and jars; `MonsterCatalog` and
-- `PublicCatalog`, which copy tables; `ErrorCode`; the file of keys of `LoadLocalSigner`; the estimates
-- of agents in floating point (internal/ai/agents.go, internal/ai/preferences.go) and `AIDecide`, which
-- calls them. The rest of training (internal/training), transport, telemetry, storage and the research
-- programs are not modelled.
pub mod Base
pub mod Outcome
pub mod Text
pub mod Protocol
pub mod Rules
pub mod Monsters
pub mod Random
pub mod Board
pub mod Rewards
pub mod Targets
pub mod Streams
pub mod Offers
pub mod Effects
pub mod Validation
pub mod Engine
pub mod Application
pub mod Training
pub mod Agents
pub mod Scenarios
