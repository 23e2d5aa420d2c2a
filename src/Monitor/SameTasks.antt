-- ===== src/Monitor/SameTasks.antt =====
-- kernel/src/main.rs: the commands that do not touch the task table.
use jing_os.Base.{
  ℕ, refl, Bool, true, false, Option, none, some, List, [], ◌∷◌, Bytes, bytes, str_eq, min, ◌==◌,
  if◌then◌else◌, u32_max, ok, err,
}
use jing_os.Interrupts.Handlers.{set_pit_hz}
use jing_os.UserMode.Session.{Started}
use jing_os.Monitor.Numbers.{parse_u64}
use jing_os.Monitor.Auto.{default_interval_ticks, enable, disable}
use jing_os.Monitor.Commands.{
  World, Outcome, done, on, number_or, of_started, timerhz, taskauto, of_demo,
}
use jing_os.Monitor.Promised.{SameTasks}

abbrev pub Same : World → Outcome × World → Type 0
Same w out = SameTasks [] w out

on-Same :
    (n : Option ℕ) (w : World) (f : ℕ → Outcome × World)
    → ((n : ℕ) → Same w (f n))
    → Same w (on n w f)
on-Same none w f h = (refl, refl)
on-Same (some n) w f h = h n

if-Same :
    (t : Bool) (w : World) (r s : Outcome × World)
    → Same w r
    → Same w s
    → Same w (if t then r else s)
if-Same true w r s h h' = h
if-Same false w r s h h' = h'

done-Same : (w : World) → Same w (done w)
done-Same w = (refl, refl)

pub timerhz-Same : (args : List Bytes) (w : World) → Same w (timerhz args w)
timerhz-Same [] w = (refl, refl)
timerhz-Same (text ∷ rest) w =
    on-Same (parse_u64 text) w
      (λ n. done (record w { statics = (set_pit_hz (min n u32_max) w.statics).1 }))
      (λ n. (refl, refl))

pub taskauto-Same : (now : ℕ) (parts : List Bytes) (w : World) → Same w (taskauto now parts w)
taskauto-Same now [] w = done-Same w
taskauto-Same now (mode ∷ rest) w =
    if-Same (str_eq mode (bytes "off")) w
      (done (record w { auto_scheduler = disable w.auto_scheduler }))
      (if str_eq mode (bytes "on")
        then on (number_or default_interval_ticks rest) w (switch_on now w)
        else done w)
      (done-Same w)
      (if-Same (str_eq mode (bytes "on")) w
        (on (number_or default_interval_ticks rest) w (switch_on now w)) (done w)
        (on-Same (number_or default_interval_ticks rest) w (switch_on now w) (λ n.
          if-Same (n == 0) w (done w)
            (done (record w { auto_scheduler = enable n now w.auto_scheduler })) (done-Same w)
            (done-Same w)))
        (done-Same w))
  where
    switch_on : ℕ → World → ℕ → Outcome × World
    switch_on now w n =
        if n == 0
        then done w
        else done (record w { auto_scheduler = enable n now w.auto_scheduler })

pub of_demo-Same : (w : World) (s : Started) → Same w (of_demo (of_started w s))
of_demo-Same w (ok c, u, memory) = (refl, refl)
of_demo-Same w (err e, u, memory) = (refl, refl)
