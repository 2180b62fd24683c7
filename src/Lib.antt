-- ===== src/Lib.antt =====
-- The recommendation service: what it learns of its users from the platform's events, the lists
-- that its batch writes, and what it serves.
--
-- The program is src/arcadia_recommendation. Events of other services arrive as messages
-- (Subscriber, Bus, Consumers), are turned into changes of a store by four handlers (Ingest), each in
-- one unit of work (Store), and move a user's profile (Preference) by the vectors of games (Embedding,
-- Catalog). A batch ranks the catalogue for each user (Scoring), stores the list and announces it
-- through an outbox (Generate, Recommendation, Outbox). A read serves the stored list, or the games
-- that sell best (Serve), to callers whom a token identifies (Access, Http). The rows of the SQL
-- backend hold what the store holds (Sql); the settings select the backends and the providers
-- (Settings, Composition, Adapters).
--
--   Base           lists, dictionaries, sorting, strings and computations that raise
--   Runtime        what Python brings: floats, Unicode, the order of sets, UUIDs and instants
--   Limits         domain/shared/limits.py
--   Embedding      domain/policy/embedding.py: Sparse is Embedding, Dense is DenseEmbedding
--   Catalog        domain/catalog/game_profile.py
--   Preference     domain/preference/profile.py and signal.py
--   Recommendation domain/recommendation/recommendation.py and events.py
--   Scoring        domain/policy/scoring.py
--   Json           the values of a message
--   Outbox         infrastructure/messaging/outbox and serialization.py, persistence/memory/outbox_store.py
--   Store          infrastructure/persistence/memory: store, unit of work, repositories
--   Ingest         application/usecases/ingest.py
--   Generate       application/usecases/generate.py and enrich.py
--   Serve          application/usecases/serve.py and application/dto/recommendation_dto.py
--   Consumers      presentation/consumers and infrastructure/messaging/bus/idempotent.py
--   Subscriber     infrastructure/messaging/kafka/subscriber.py
--   Bus            infrastructure/messaging/bus/in_process.py and presentation/consumers/registry.py
--   Access         presentation/http/deps/auth.py, domain/shared/actor.py, the statuses of
--                  presentation/http/errors.py, of which Http/Problem.antt models the rest
--   Sql            infrastructure/persistence/sql: models.py, mapping.py, repositories.py,
--                  outbox_store.py and unit_of_work.py
--   Adapters       infrastructure/adapters/embedding.py and explanation.py
--   Http           infrastructure/security/jwt_verifier.py, infrastructure/response_cache.py,
--                  infrastructure/health.py, presentation/http/health.py, errors.py and routers
--   Settings       infrastructure/config/settings.py
--   Composition    composition.py: what the settings select
--   Reachable      the stores that events, batches, embedding passes and polls lead to
--   Tests          the theorems at concrete inputs, over a runtime of numbers
--
-- A method of a mutable object is a function of type `Exec S A`: it returns a result or an error,
-- and the state in both cases. An async method is one such function, with no other task between its
-- steps, but for the pauses of the subscriber. A dictionary is an association list in the order of
-- insertion. A set is a list that a membership test guards. A UUID is its number, an instant is a
-- number. Loops over lists are structural recursion; the one loop with a bound, the subscriber's
-- retries, counts its attempts down, so that no function needs fuel.
--
-- The operations on floats are parameters, and no theorem assumes anything of their rounding. Where
-- a theorem speaks of order, it takes `Ordered`: the floats that are not NaN compare as numbers do.
-- The HTTP exchanges with the providers, `blake2b`, `json.loads`, `jwt.decode`, the Redis client,
-- the publisher of letters, the producer of the subscriber, the clock, fresh ids, the jitter of a
-- delay and what others do while the subscriber waits between two attempts are parameters as well.
-- A `select` of SQL is a parameter of which theorems assume `Selecting`: it filters, orders by its
-- key and cuts, and rows that tie may come in any order.
--
-- Not modelled: of the SQL persistence its engine, migrations and transactions, and the queries
-- co_purchases and nearest_to; the calls of aiokafka; FastAPI's application; logging and metrics;
-- and the tasks of the event loop that poll and schedule. Messages of exceptions are not kept: a
-- problem response is given the message.
pub mod Base
pub mod Runtime
pub mod Limits
pub mod Embedding
pub mod Catalog
pub mod Preference
pub mod Recommendation
pub mod Scoring
pub mod Json
pub mod Outbox
pub mod Store
pub mod Ingest
pub mod Generate
pub mod Serve
pub mod Consumers
pub mod Subscriber
pub mod Bus
pub mod Access
pub mod Sql
pub mod Adapters
pub mod Http
pub mod Settings
pub mod Composition
pub mod Reachable
pub mod Tests
