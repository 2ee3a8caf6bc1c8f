-- ===== src/Net/Channel/Registration.antt =====
-- What a channel asks of epoll (src/net/epoll_poller.cpp), read as the manual of `epoll_ctl` says.
use rpc_framework.Base.{false, List, [], ◌∷◌, ◌++◌, ◌≡◌, refl, sym, ap, ◌∙◌, if_cases}
use rpc_framework.Net.Channel.{
  Events, is_none_event, Index, new, added, deleted, Control, ctl_add, ctl_mod, ctl_del, Channel,
  init, update_at, remove_at, update_channel, remove_channel, enable_reading, disable_reading,
  enable_writing, disable_writing, disable_all, remove,
}

-- What a descriptor is registered for; `misused` after a call that fails: to add what is there (EEXIST),
-- to change or delete what is not (ENOENT).
pub data Registered : Type 0 where
  absent misused : Registered
  present : Events → Registered

abbrev pub effect : Registered → Control → Registered
effect absent (ctl_add e) = present e
effect (present f) (ctl_mod e) = present e
effect (present f) ctl_del = absent
effect _ _ = misused

abbrev pub replay : Registered → List Control → Registered
replay r [] = r
replay r (c ∷ cs) = replay (effect r c) cs

replay-append :
    (r : Registered) (cs : List Control) (c : Control)
    → replay r (cs ++ (c ∷ [])) ≡ effect (replay r cs) c
replay-append r [] c = refl
replay-append r (d ∷ cs) c = replay-append (effect r d) cs c

-- What the index and the events of a channel say.
abbrev pub expected : Index → Events → Registered
expected added e = present e
expected _ e = absent

-- The calls so far have all succeeded and registered what the channel says.
abbrev pub InStep : Channel → Type 0
InStep ch = replay absent ch.controls ≡ expected ch.index ch.events

pub data Op : Type 0 where
  enables_reading disables_reading enables_writing disables_writing disables_all removes : Op

pub step : Op → Channel → Channel
step enables_reading = enable_reading
step disables_reading = disable_reading
step enables_writing = enable_writing
step disables_writing = disable_writing
step disables_all = disable_all
step removes = remove

pub run : List Op → Channel → Channel
run [] ch = ch
run (o ∷ os) ch = run os (step o ch)

-- An update after the events have changed from `e`.
update_channel-InStep :
    (e : Events) (ch : Channel)
    → replay absent ch.controls ≡ expected ch.index e
    → InStep (update_channel ch)
unfolding update_channel
update_channel-InStep e ch h = go ch.index refl h
  where
    go :
        (i : Index)
        → ch.index ≡ i
        → replay absent ch.controls ≡ expected i e
        → InStep (update_at i ch)
    go new i h =
        replay-append absent ch.controls _ ∙ ap (λ (r : Registered). effect r (ctl_add ch.events)) h
    go deleted i h =
        replay-append absent ch.controls _ ∙ ap (λ (r : Registered). effect r (ctl_add ch.events)) h
    go added i h =
        if_cases InStep (is_none_event ch.events)
          (replay-append absent ch.controls _ ∙ ap (λ (r : Registered). effect r ctl_del) h)
          (replay-append absent ch.controls _
            ∙ ap (λ (r : Registered). effect r (ctl_mod ch.events)) h
            ∙ ap (λ (j : Index). expected j ch.events) (sym i))

remove_channel-InStep : (ch : Channel) → InStep ch → InStep (remove_channel ch)
unfolding remove_channel
remove_channel-InStep ch h = go ch.index h
  where
    go :
        (i : Index)
        → replay absent ch.controls ≡ expected i ch.events
        → InStep (record (remove_at i (record ch { in_map = false })) { index = new })
    go new h = h
    go deleted h = h
    go added h = replay-append absent ch.controls _ ∙ ap (λ (r : Registered). effect r ctl_del) h

step-InStep : (o : Op) (ch : Channel) → InStep ch → InStep (step o ch)
unfolding step enable_reading disable_reading enable_writing disable_writing disable_all remove
step-InStep enables_reading ch h = update_channel-InStep ch.events _ h
step-InStep disables_reading ch h = update_channel-InStep ch.events _ h
step-InStep enables_writing ch h = update_channel-InStep ch.events _ h
step-InStep disables_writing ch h = update_channel-InStep ch.events _ h
step-InStep disables_all ch h = update_channel-InStep ch.events _ h
step-InStep removes ch h =
    remove_channel-InStep (disable_all ch) (update_channel-InStep ch.events _ h)

run-InStep : (os : List Op) (ch : Channel) → InStep ch → InStep (run os ch)
unfolding run
run-InStep [] ch h = h
run-InStep (o ∷ os) ch h = run-InStep os (step o ch) (step-InStep o ch h)

-- Whatever is enabled, disabled and removed, no call of `epoll_ctl` for the channel fails, and the
-- descriptor is registered, for exactly the events of the channel, when the index says that it is
-- added and else not at all.
pub run_registered : (os : List Op) → InStep (run os init)
unfolding init
run_registered os = run-InStep os init refl
