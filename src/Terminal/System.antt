-- ===== src/Terminal/System.antt =====
-- The terminal program at work: its model, the client, and the commands that bubbletea runs beside it. A
-- command first does its call, and its message arrives later; what else happens comes in between.
pub mod Flight
pub mod Panics
use tuti_server.Base.{String, Bool, true, false, List, [], ◌∷◌, ◌++◌, Option, none, some, ◌≡◌, map}
use tuti_server.Errors.{Error}
use tuti_server.Client as Client
use tuti_server.Client.{Client, Codec, Net, HistoryEntry}
use tuti_server.Client.Rpc.{Responses}
use tuti_server.Terminal.Widgets.{Widgets, Texts}
use tuti_server.Terminal.Model as Model
use tuti_server.Terminal.Model.{Model}
use tuti_server.Terminal.Run.{Call, check_health, Reply, health_result, result_reply}
use tuti_server.Terminal.Exec.{exec}
use tuti_server.Terminal.Update.{
  Effect, quit, task, start, Msg, window_size, key, health_msg, result, tick, other,
}
use tuti_server.Terminal.Keys.{update, init}

-- A command that has not done its call, or one whose message has not arrived.
pub data Pending : Type 0 where
  running : Call → Pending
  arrived : Reply → Pending

pub record System (ui : Widgets) (W : Type 0) : Type 0 where
  pub model : Model ui
  pub client : Client W
  pub pending : List Pending

module _ {ui : Widgets} where
  -- The messages that come from the terminal and from widgets, not from the commands of the program.
  abbrev pub from_outside : Msg ui → Bool
  from_outside (health_msg _) = false
  from_outside (result _) = false
  from_outside _ = true

  abbrev pub msg_of : Reply → Msg ui
  msg_of (health_result e) = health_msg e
  msg_of (result_reply msg) = result msg

  abbrev pub started : List (Effect ui) → List Pending
  started [] = []
  started (start c ∷ rest) = running c ∷ started rest
  started (quit ∷ rest) = started rest
  started (task t ∷ rest) = started rest

module _ (ui : Widgets) (codec : Codec) (texts : Texts) (responses : Responses) {W : Type 0}
    (net : Net W) where
  -- The program of cmd/tuti-tui/main.go as it starts, before a network `w`.
  unfoldable pub boot : String → W → System ui W
  boot base_url w = record {
    model = Model.new ui;
    client = Client.new base_url w;
    pending = started (init ui codec texts (Model.new ui));
  }

  pub data Step (s : System ui W) : System ui W → Type 0 where
    outside :
        (msg : Msg ui) (m : Model ui) (effects : List (Effect ui))
        → from_outside msg ≡ true
        → update ui codec texts s.client.history msg s.model ≡ some (m, effects)
        → Step s (record s { model = m; pending = s.pending ++ started effects })
    work :
        (before after : List Pending) (c : Call) (reply : Reply) (client : Client W)
        → s.pending ≡ before ++ (running c ∷ after)
        → exec codec responses net c s.client ≡ (some reply, client)
        → Step s (record s { client = client; pending = before ++ (arrived reply ∷ after) })
    deliver :
        (before after : List Pending) (reply : Reply) (m : Model ui) (effects : List (Effect ui))
        → s.pending ≡ before ++ (arrived reply ∷ after)
        → update ui codec texts s.client.history (msg_of reply) s.model ≡ some (m, effects)
        → Step s (record s { model = m; pending = (before ++ after) ++ started effects })

  -- The systems that the program can come to.
  pub data Reach (base_url : String) (w : W) : System ui W → Type 0 where
    booted : Reach base_url w (boot base_url w)
    stepped : {s s' : System ui W} → Reach base_url w s → Step s s' → Reach base_url w s'
