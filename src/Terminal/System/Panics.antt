-- ===== src/Terminal/System/Panics.antt =====
-- The handlers of the terminal program do not panic, wherever it has come to.
use tuti_server.Base.{◌≡◌, refl, String, List, none, some, subst}
use tuti_server.Client.{Codec, Net}
use tuti_server.Client.Rpc.{Responses}
use tuti_server.Terminal.Commands.{command_catalog}
use tuti_server.Terminal.Widgets.{Widgets, Texts}
use tuti_server.Terminal.Model.{Model, new}
use tuti_server.Terminal.Update.{Effect, Msg, Next}
use tuti_server.Terminal.Keys.{update}
use tuti_server.Terminal.Keys.Safe.{update-Goes, fresh-IsSafe}
use tuti_server.Terminal.Safe.{frame, IsSafe, Goes, IsMenu, fields_for-IsChosen}
use tuti_server.Terminal.System.{System, boot, Step, outside, work, deliver, Reach, booted, stepped}

module _ (ui : Widgets) (menu : IsMenu ui) (codec : Codec) (texts : Texts) where
  it_returns :
      (o : Next ui) → Goes ui o → (m : Model ui) × (fx : List (Effect ui)) × (o ≡ some (m, fx))
  it_returns none h = absurd h
  it_returns (some (m, fx)) h = (m, fx, refl)

  new-IsSafe : IsSafe ui (frame ui (new ui))
  unfolding new command_catalog
  new-IsSafe = fresh-IsSafe ui codec texts _ (fields_for-IsChosen ui _ tt) refl refl

  module _ (responses : Responses) {W : Type 0} (net : Net W) where
    step-IsSafe :
        {s s' : System ui W}
        → Step ui codec texts responses net s s'
        → IsSafe ui (frame ui s.model)
        → IsSafe ui (frame ui s'.model)
    step-IsSafe {s} (outside msg m fx _ e) h =
        subst (Goes ui) e (update-Goes ui codec texts menu s.client.history msg s.model h)
    step-IsSafe (work _ _ _ _ _ _ _) h = h
    step-IsSafe {s} (deliver _ _ reply m fx _ e) h =
        subst (Goes ui) e (update-Goes ui codec texts menu s.client.history _ s.model h)

    Reach-IsSafe :
        {base_url : String} {w : W} {s : System ui W}
        → Reach ui codec texts responses net base_url w s
        → IsSafe ui (frame ui s.model)
    unfolding boot
    Reach-IsSafe booted = new-IsSafe
    Reach-IsSafe (stepped r step) = step-IsSafe step (Reach-IsSafe r)

    -- Wherever the program can come to, with a list widget whose selected item is one of its items: `Update`
    -- returns for every message, whatever it is. No index is out of range and no choice is taken from none.
    pub update_returns :
        {base_url : String} {w : W} {s : System ui W}
        → Reach ui codec texts responses net base_url w s
        → (msg : Msg ui)
        → (m : Model ui) × (fx : List (Effect ui)) × (update ui codec texts s.client.history msg
              s.model
            ≡ some (m, fx))
    update_returns {s} r msg =
        it_returns (update ui codec texts s.client.history msg s.model)
          (update-Goes ui codec texts menu s.client.history msg s.model (Reach-IsSafe r))
