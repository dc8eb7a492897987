-- ===== src/Tests/Dispatcher.antt =====
-- A wake of an idle session.
use agent_notes.Prelude.{◌≡◌, refl, true, false, none, some, [], ◌∷◌, ◌⊎◌, ◌≤◌}
use agent_notes.Messaging.{Session, Mail, Message, done}
use agent_notes.Messaging.Table.{get_session}
use agent_notes.Messaging.Claiming.{claim_as}
use agent_notes.Messaging.Sessions.{bumped}
use agent_notes.Dispatcher.Waker.{L3Waker, idle, sent, result}
use agent_notes.Dispatcher.Service.{Settings, Plan, Notice, on_notify, process_wakes, object}
use agent_notes.Dispatcher.Scheduling.{IsApart, start, notified, woken, Tick-IsApart}
use agent_notes.Dispatcher.Jobs.{JobReply, post_reply, post_reply_answers}
use agent_notes.Messaging.Replies.{first, replies_to}
use agent_notes.Dispatcher.Guard.{wake_settles}
use agent_notes.Tests.Messaging.{alice, bob, knock, order, desk, desk-IsMailSound, computed}

abbrev waker : L3Waker
waker = record {
  vm = "vm";
  paseo = some (record {
    inspect = λ agent. done (some idle);
    send = λ agent m. true;
    prunes = λ key. false;
  });
  find_agent = λ id. done none;
  max_auto_continues = 3;
  auto_continue_window = 1800;
  claimer = "vm/dispatcher";
}

abbrev woken_desk : Mail
woken_desk = record desk {
  sessions = bumped 10 1800 alice ∷ bob ∷ [];
  messages = claim_as "vm/dispatcher" 10 knock ∷ order ∷ [];
}

wake_settles_example :
    ((sent ≡ sent)
      × ((s : Session) × (get_session "vm/claude/a" woken_desk ≡ some s) × (s.auto_continues ≤ 3)))
    ⊎ (woken_desk.messages ≡ desk.messages)
unfolding computed
wake_settles_example =
    wake_settles (λ i. false) waker 10 "vm/claude/a" (0 ∷ []) desk woken_desk
      (result sent (0 ∷ []) [] []) desk-IsMailSound refl

abbrev settings : Settings
settings = record {
  vm = "vm";
  waker = some waker;
  sweep_interval = 30;
  wake_delay = 5;
  defer_window = 600;
}

abbrev fresh_plan : Plan
fresh_plan = record { pending = []; settled = []; requests_dirty = true; next_sweep = 0 }

abbrev knocked : Notice
knocked = record {
  is_request = false;
  to_vm = none;
  to_session = some "vm/claude/a";
  wake = true;
  id = some 0;
}

abbrev settled_plan : Plan
settled_plan = record {
  pending = [];
  settled = (0, 20) ∷ [];
  requests_dirty = true;
  next_sweep = 0;
}

wakes_once :
    (process_wakes
      (λ i. false)
      settings
      20
      10
      false
      (on_notify settings 1 (object knocked) fresh_plan, desk)).0
    ≡ settled_plan
unfolding computed
wakes_once = refl

Tick-IsApart_example : IsApart settled_plan
unfolding computed
Tick-IsApart_example =
    Tick-IsApart settings fresh_plan settled_plan tt
      (woken (λ i. false) 20 10 false desk (notified 1 (object knocked) start))

abbrev verdict : JobReply
verdict = record { body = "done"; payload = []; subject = none }

post_reply_answers_example :
    ((post_reply 3 10 order verdict "vm" desk).0 ≡ true)
    × ((reply : Message) × (first (replies_to 1 (post_reply 3 10 order verdict "vm" desk).1)
          ≡ some reply))
unfolding computed
post_reply_answers_example = post_reply_answers 2 10 order verdict "vm" desk refl refl refl refl
