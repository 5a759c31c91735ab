-- ===== src/Lib.antt =====
-- Rocketbot: chat bots for a Rocket.Chat server that answer messages by a generator.
--
-- The program (cmd/rocketbot) starts a client for each configured bot. A client (bot/client.go)
-- listens to a room's messages, decides by the room's policy whether to answer, gathers what the bot
-- missed of a thread, asks a generator, and shows the answer by one posted message that it updates
-- while the generator works. A generator (bot/opencode_generator.go) turns the event stream of an
-- OpenCode server into render events, which a renderer (bot/message_renderer.go) turns into the text
-- of the message. An HTTP API (internal/httpapi/server.go) lets other programs post as a bot. Clients
-- and the API make their requests by the REST client (bot/api_client.go).
--
-- The modules:
--   Prelude        names shared by all: the libraries', Boolean tests, lists.
--   GoMap          Go's maps as association lists in the order of a range.
--   Text           package strings and strconv on texts: TrimSpace, Fields, EqualFold, Itoa and more;
--                  its child Escape has url.PathEscape and the bytes of a text.
--   Json           values that encoding/json decodes to, and type assertions and struct fields on them.
--   Message        bot/generator.go and bot/render_event.go: the data that components exchange; its
--                  child Parse has parseMessage and parseDDPDate of bot/message.go.
--   Http           one exchange with a server that is an environment, and json.Marshal of a string.
--   Config         config/config.go: Slug is validateSlug, Rooms is parseRoomPoliciesJSON, Load is Load.
--   Start          cmd/rocketbot/main.go: createBot, newGenerator, mapRoomPolicies and the bots of
--                  the HTTP API.
--   Api            bot/api_client.go: NewAPIClient, doRequest, PostMessage, UpdateMessage; its child
--                  Rooms has EnsureDMRoom and ResolveChannel, its child History the reading calls.
--   HttpApi        internal/httpapi/server.go: validateTarget and handleSend, by its checks in order.
--   Renderer       bot/message_renderer.go and bot/tool_summary.go: Apply, upsertTool, Render.
--   Client         bot/client.go: the policies of rooms, mentions, active threads, missed messages.
--   Answering      bot/client.go: handleRenderStreamingResponse (Rendering),
--                  handleNonStreamingResponse and handleStreamingResponse (Streaming), and handleResponse
--                  with the bot's command (Respond). A generator is a record of what its interfaces give.
--   Ddp            bot/client.go: the WebSocket session, processMessage and the handlers of room
--                  messages and notifications; a goroutine that is started is an entry of a list. Its
--                  child Run is initialize, runSession, handleMessages and runWithReconnect.
--   Webhook        bot/webhook_generator.go, bot/n8n_parser.go and bot/stream_parser.go.
--   OpenCode       bot/opencode_generator.go. Event extracts updates from payloads, Stream is the state
--                  of consumeRenderEvents and its handlers, Loop is the loop over lines. Setup is the
--                  generator with its conversations, Conversation is openCodeConversation with the
--                  counter of its runs, Prompt is buildPrompt and the keys of conversations. Backend has the requests, Session is
--                  GenerateRenderStream, Plain is GenerateResponseStream and GenerateResponse, Tree is
--                  ResetSession with the tree of its sessions.
-- Beside the definitions of a part stand modules for what is proved of it, and its Tests.
--
-- State is passed explicitly. A World is the server as a function of all requests so far, with the log
-- of these requests; a call takes a World and gives a result and the World after it. A select loop is a
-- fold over a list of inputs, each with the one reading of the clock that its pass makes, so every order
-- of events, ticks, closing and cancellation is a list. An index out of range, at which Go panics, is
-- `none`. Errors keep their kind, and not their text. A Backend is the OpenCode server in the same way;
-- its log tells of each request whether the lock of the conversation was held. How the goroutine of a
-- stream runs beside the prompt is a Timing: the two choices that a later step depends on.
--
-- Bounds: the loop of stripLeadingUsernameMention runs on fuel, and a fuel above the number of the text's
-- code points is enough, as is proved; itoa has the number's successor as fuel, above the number of its
-- digits.
-- Load runs on fuel for the bots, and the number of the first bot without a URL is enough; the visit of a
-- session's tree runs on fuel for its depth, and the number of the requests that the server answers
-- before the context's deadline is enough, as is proved of both.
-- The counter of a conversation's runs wraps at 2 ^ 64, and a date keeps the wrap of int64; the other
-- numbers count lists, statuses and nanoseconds since the start, below the limits of 64 bits.
--
-- Not modelled: logging, tracing and metrics; the transport of HTTP and the WebSocket; the decoder of
-- JSON and time.Parse, which are parameters of what uses them, and the decoder's match of struct keys that
-- differ in case; texts that are not valid UTF-8, except that a cut inside a code point leaves a
-- replacement character for each of its bytes; lower case and case folding outside of ASCII, Latin-1 and
-- the two code points that fold into ASCII. A reading of the clock inside a pass is the same one.
-- The URL of a request is one that net/url parses, and package sort, the verb %q, the JSON of a time and
-- the pauses between two polls of a session's status are left to the environment.
-- Nor are these parts: the lengths of the pauses between sessions, which a package for back-off
-- decides; consumeEvents, the older loop over the stream that only tests call; handleDMResponse,
-- likewise; the health endpoint and the listener of the HTTP API; signals and the wait for the bots.
mod Prelude
pub mod GoMap
pub mod Text
pub mod Json
pub mod Message
pub mod Renderer
pub mod Http
pub mod Api
pub mod HttpApi
pub mod Answering
pub mod Ddp
pub mod Webhook
pub mod Config
pub mod Start
pub mod Client
pub mod OpenCode
