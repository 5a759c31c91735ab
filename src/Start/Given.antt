-- ===== src/Start/Given.antt =====
-- A configuration that Load accepts starts its bots as it says.
use mathlib.Core.Option
use rocketbot.GoMap.{GoMap}
use rocketbot.Text.{trim_space, trim_suffix, to_lower}
use rocketbot.Renderer.{normalize_render_mode}
use rocketbot.Api.{new_api_client}
use rocketbot.Client.Policy.{normalize_active_thread_trigger}
use rocketbot.Config.{RoomPolicyConfig, BotConfig, accepts}
use rocketbot.Config.Load.{load}
use rocketbot.Config.Fits.{IsTrigger, IsRenderMode}
use rocketbot.Config.Complete.{IsWebhookBot, IsOpenCodeBot}
use rocketbot.Config.Loaded.{IsComplete, load-Loads}
use rocketbot.OpenCode.Setup.{new_open_code_generator}
use rocketbot.Start.{
  ResponseGenerator, webhook, open_code, new_webhook_generator, new_generator, new_client_with_api,
  Bot, bot_with, create_bot, create_all,
}
use rocketbot.Prelude.{
  if◌then◌else◌, ◌==◌, All, ℕ, String, ◌≡◌, refl, ap, ◌⊎◌, inl, inr, Option, some, List, [], ◌∷◌,
}

-- The base URL that is written, or OpenCode's own where none is, without a slash at its end.
abbrev base_url_of : String → String
base_url_of url = trim_suffix (if url == "" then "http://127.0.0.1:4096" else url) "/"

-- The generator that the configuration asks for.
abbrev GeneratorFits : BotConfig → ResponseGenerator → Type 0
GeneratorFits b (webhook url auth) =
    (b.generator_type ≡ "webhook") × (url ≡ b.webhook_url) × (auth ≡ b.webhook_auth)
GeneratorFits b (open_code g) =
    (b.generator_type ≡ "opencode")
    × (g.base_url ≡ base_url_of (trim_space b.opencode_base_url))
    × (g.auth ≡ b.opencode_auth)
    × (g.session_dir ≡ trim_space b.opencode_session_dir)
    × (g.permission_mode ≡ b.opencode_permission_mode)

-- Both requests and the session are those of the configured user of the configured server.
abbrev IdentityFits : BotConfig → Bot → Type 0
IdentityFits b c =
    (c.api.base_url ≡ trim_suffix b.url "/")
    × (c.api.user_id ≡ b.user_id)
    × (c.api.token ≡ b.token)
    × (c.client.user_id ≡ b.user_id)

abbrev pub BotFits : BotConfig → Bot → Type 0
BotFits b c =
    GeneratorFits b c.generator
    × IdentityFits b c
    × (c.client.streamed_output ≡ b.streamed_output)
    × (c.client.thread_default ≡ b.thread_default)
    × (c.client.render_mode ≡ b.render_mode)
    × (c.client.active_thread_trigger ≡ b.active_thread_trigger)

-- The bots of a configuration, each with its own.
abbrev pub AllFit : List BotConfig → List Bot → Type 0
AllFit [] [] = Unit
AllFit (b ∷ bots) (c ∷ clients) = BotFits b c × AllFit bots clients
AllFit _ _ = ⊥

pub render_mode-kept : (m : String) → IsRenderMode m → normalize_render_mode m ≡ m
unfolding normalize_render_mode to_lower trim_space
render_mode-kept m (inl e) = rw e refl
render_mode-kept m (inr e) = rw e refl

pub trigger-kept : (t : String) → IsTrigger t → normalize_active_thread_trigger t ≡ t
unfolding normalize_active_thread_trigger to_lower trim_space
trigger-kept t (inl e) = rw e refl
trigger-kept t (inr e) = rw e refl

open_code-fits :
    (b : BotConfig)
    → IsOpenCodeBot b
    → GeneratorFits b (
        open_code (
          new_open_code_generator b.opencode_base_url b.opencode_auth b.opencode_permission_mode
            b.opencode_session_dir))
unfolding new_open_code_generator trim_space
open_code-fits b (t, inl e, p, u, a) = (t, refl, refl, refl, rw e refl)
open_code-fits b (t, inr e, p, u, a) = (t, refl, refl, refl, rw e refl)

new_generator-fits :
    (b : BotConfig)
    → IsWebhookBot b ⊎ IsOpenCodeBot b
    → (g : ResponseGenerator) × (new_generator b ≡ some g) × GeneratorFits b g
unfolding new_generator new_webhook_generator
new_generator-fits b (inl (t, p, u, base, auth, dir, mode)) = (
  webhook b.webhook_url b.webhook_auth,
  rw (t, p, new_generator, new_webhook_generator) refl,
  (t, refl, refl),
)
new_generator-fits b (inr o) = (
  open_code (
      new_open_code_generator b.opencode_base_url b.opencode_auth b.opencode_permission_mode
        b.opencode_session_dir),
  rw (o.0, new_generator) refl,
  open_code-fits b o,
)

create_bot-fits : (b : BotConfig) → IsComplete b → (c : Bot) × (create_bot b ≡ some c) × BotFits b c
unfolding create_bot bot_with new_client_with_api new_api_client
create_bot-fits b (v, u, t, g, k, m, r) =
    let (gen, e, f) = new_generator-fits b g in
    (
      bot_with b gen,
      ap (Option.map (bot_with b)) e,
      (
        f,
        (refl, refl, refl, refl),
        refl,
        refl,
        render_mode-kept b.render_mode m,
        trigger-kept b.active_thread_trigger k,
      ),
    )

create_all-fit :
    (bots : List BotConfig)
    → All IsComplete bots
    → (clients : List Bot) × (create_all bots ≡ some clients) × AllFit bots clients
unfolding create_all
create_all-fit [] h = ([], refl, tt)
create_all-fit (b ∷ bots) (h, hs) =
    let (c, e, f) = create_bot-fits b h in
    let (cs, es, fs) = create_all-fit bots hs in (c ∷ cs, rw (e, es, create_all) refl, (f, fs))

-- Where Load accepts an environment, main creates every bot, none fails, and each has the generator that
-- is configured: a webhook with its URL and authorisation, or OpenCode with its base URL (without spaces
-- around it and a slash at its end, and OpenCode's own where none is written), authorisation, session
-- directory (without spaces around it) and permission mode. Its calls go to the configured server (without
-- a slash at its end) with the configured user and token, and its client has the configured user,
-- streamed output, thread default, render mode and trigger.
pub create_all-load :
    (decode : String → Option (GoMap RoomPolicyConfig)) (env : String → String) (fuel : ℕ)
    {bots : List BotConfig}
    → load decode env fuel ≡ some (accepts bots)
    → (clients : List Bot) × (create_all bots ≡ some clients) × AllFit bots clients
create_all-load decode env fuel {bots} h = create_all-fit bots (load-Loads decode env fuel h).0
