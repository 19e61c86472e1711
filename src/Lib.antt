-- ===== src/Lib.antt =====
-- The server of wfchat (apps/api/src): its configuration, its limits and quotas, its chat and
-- sessions, and its cafe.
--
-- The server is a chat with language models, with accounts, memories, attachments and a cafe: a small
-- game for several players over web sockets. Each request passes the rate limiters; a message to a
-- model also takes a permit of the generation limiter; errors become responses in one place. A socket
-- of the cafe reserves a place, joins a room of the hub, and then calls one operation of the hub for
-- each message; timers of the hub end a rush, start the next round, send movements and remove rooms.
--
-- Files and code:
--   Base, Base/*        what the others share: Boolean tests, lists, association lists, texts.
--   Config              apps/api/src/config.rs: Config and its parts, and their defaults. Below it, Values
--                       and Read read the environment (`env`), Limits, Validate, Attachments and
--                       Security are `validate`, Origin is validate_production_origin; Sound,
--                       PublicOrigins, Valid and Printed say what has been checked.
--   Errors              apps/api/src/error.rs: AppError, its reasons, and into_response.
--   RateLimit/Policy    apps/api/src/rate_limit.rs: RateLimitPolicies, families, identities, keys.
--   RateLimit/Buckets   RateLimiter::check_many. Usage, Window and Runs, below it, say what a window
--                       counts: `usage` is the count of a key in the window that is open.
--   RateLimit/Configured  RateLimiter with the limits of a configuration that was read.
--   RateLimit/ClientIp  client_ip_from_request and the identities of a request; Proofs.
--   RateLimit/Generation  GenerationLimiter and its permits; Runs, below it, runs it with a list of the
--                       permits that are out.
--   Quota               apps/api/src/store/quota.rs: the tables of the daily quotas; Counters, Reserve,
--                       Settle and Cleanup are its transactions. Counts, Usage, Invariant, Steps,
--                       Admission and Runs say that the counters cover the reservations, Midnight when
--                       a day ends.
--   Quota/Daily         apps/api/src/chat/messages.rs: the quota around a generation; Turns. Configured
--                       is with the limits of a configuration that was read.
--   Chat                apps/api/src/chat/messages.rs: Context is what a model is sent and the guards of a
--                       message, Images its images, Output the limit on an answer; Selection, Checked.
--   Session             apps/api/src/session.rs: the cookie of a session; Cookies.
--   Sync                apps/api/src/sync.rs and apps/api/src/store/sync.rs: Table is sync_entities with the
--                       loops of a preview and a commit; Agreement.
--   Voice               apps/api/src/voice.rs: the WAV audio of the engine; Accepted, Chunks,
--                       Files, Fuel.
--   Cafe/F32            the interface of the floating-point numbers.
--   Cafe/Activity       apps/api/src/cafe.rs: CafeActivity, the three games and `for_round`.
--   Cafe/Room           CafeRoom, CafePlayer, snapshots, broadcasts, the chat history; History.
--   Cafe/Layout         CAFE_MAP_LAYOUT, the colliders, distances.
--   Cafe/Presence       join, leave_for_connection.
--   Cafe/Delivery       serve_claimed_order and what a delivery does to the round.
--   Cafe/Interact       interact_for_connection, interact_table_service, interact_cafe_rush.
--   Cafe/Rounds         start_next_round, expire_cafe_rush, reward, the loadouts.
--   Cafe/Movement       update_player_for_connection, flush_dirty_movement_snapshot; Steps, Bounds.
--   Cafe/Hub            invite codes, new_room, create_room, quick_join, cleanup_at.
--   Cafe/Limits         reserve_socket, release_socket, consume_room_creation.
--   Cafe/Chat           accept_message, normalize_cafe_chat_message, emotes and chat.
--   Cafe/Events         all that happens to one room, as a list of events.
--   Cafe/Claims/*       who holds which order: `claimed_by` of the orders against `carried_order_id`
--                       of the players, through every event.
--   Cafe/Chat/Windows   how many messages pass in a window; Cafe/Movement/Bounds, where players stand;
--   Cafe/Limits/Sockets*  the counters of sockets against the reservations held.
--   Cafe/Stalled/*      a tea round that lost a leaf, through every event.
--   Cafe/Recent/*       the chat history against what the room sent, through every event.
--   Cafe/Capacity/*     how many players a room holds, through every event.
--   Tests/*             the theorems and some runs at concrete inputs.
--
-- State is passed explicitly: an operation takes the state that its lock guards and returns the new
-- one, so that each call is one step, as the lock makes it. The operations of the hub are on the room
-- that they find; where there is none they do nothing. Clocks and new ids are arguments. What a room
-- sends is appended to the list `sender`, which stands for its broadcast channel; the watch channel of
-- movements is its latest value. Texts are lists of code points. A hash map is an association list
-- with one entry for each key; the order of its entries is never relied on, as snapshots are sorted.
--
-- A transaction of PostgreSQL is one step on the tables, one that fails or is rolled back changes nothing;
-- the rows that a batch of `for update skip locked` returns are arguments, each checked against the
-- condition of its statement.
--
-- Integers: counters of a fixed width saturate where the source saturates; times are natural numbers,
-- and a subtraction of times stops at 0 as `saturating_duration_since` does. The time of an item that is
-- synchronised wraps around where the source casts it to an `i64` and back.
--
-- Fuel: the digits of a number are printed with one unit more than the number, and the search for an
-- invite code tries one code more than there are rooms, which is enough while there are fewer rooms
-- than codes; it returns `none` where it finds none. The loop over the chunks of a file has as many
-- units as the file has bytes, and each turn moves on by 8 bytes or more.
--
-- Parameters: the type F32 with its operations (IEEE 754), the test of a network and the reading and
-- printing of addresses and networks (the crate ipnet and std::net), of URLs (the crate url) and of
-- floating-point numbers, the greatest number of permits of a semaphore (tokio), the printing and
-- reading of ids (uuid), the names of time zones (chrono-tz), the lower case of a text, and which seconds
-- are a timestamp of PostgreSQL.
--
-- Not modelled: the asynchronous handlers and the loop of a socket, a task that is cancelled between two
-- of its steps, telemetry and logs; accounts; the address that the server binds; the rest of the chat and
-- of the voice, memories, attachments, the pages of synchronised changes; the other tables of the store,
-- and the transfer of a quota to an account; the model providers; the web client.
pub mod Base
pub mod Errors
pub mod Config
pub mod Quota
pub mod Chat
pub mod Session
pub mod Sync
pub mod Voice
pub mod RateLimit
pub mod Cafe
mod Tests
