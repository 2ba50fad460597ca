-- ===== src/Parent/Released.antt =====
-- The calls of `Parent` of parent.go against the machine of Held.antt.
use bcs_zc241t_study_project.Prelude.{
  ℕ, ◌≡◌, ◌⊎◌, refl, Bool, true, false, not, ◌||◌, Option, none, some, [], Result, ok, err, inl,
  inr,
}
use bcs_zc241t_study_project.Text.{Text}
use bcs_zc241t_study_project.Config.Types.{Config, RemoteRootFs}
use bcs_zc241t_study_project.Config.Validate
use bcs_zc241t_study_project.Config.Validate.{validate}
use bcs_zc241t_study_project.Security
use bcs_zc241t_study_project.Security.{validate_syscall_names}
use bcs_zc241t_study_project.Parent.Steps.{
  check_terminal, finish_progress, notify_signals, stop_signals, clean_limits, tear_down_bridge,
  set_up_firewall, make_pipe, close_read_end, close_write_end, close_pipe, close_terminal,
  watch_resize, stop_resize, attach_child, move_veth, make_raw, wait_child, set_up_bridge,
  start_child, write_config, Log, Host, Ending, attempt, call, deferred, unless_reaped, attributes,
}
use bcs_zc241t_study_project.Parent.Run.{
  is_bridge, when, waited, wait_for_child, supervise, started, launch, with_bridge, confine,
  provision, admit, accepted, parent, with_root, resolved_root, root_act,
}
use bcs_zc241t_study_project.Parent.Environment.{internal_child_environment}
use bcs_zc241t_study_project.Parent.Held.{ChildState, gone, running, Held, nothing, step, replay}
use bcs_zc241t_study_project.Parent.Ends.{
  Ends, Leaves, replayed, Ends-call, Ends-attempt, Ends-when, Leaves-deferred,
  Leaves-deferred_check, IsReapedInto, Leaves-unless_reaped,
}

-- Signals, cgroup and pipe are held, and the bridge or not.
abbrev piped : Bool → Bool → Bool → ChildState → Held
piped b terminal resize c = record {
  signals = true;
  limits = true;
  bridge = b;
  pipe = true;
  terminal = terminal;
  resize = resize;
  child = c;
}

abbrev limited : Bool → Held
limited b = record nothing { signals = true; limits = true; bridge = b }

module _ (h : Host) (cfg : Config) where
  wait_for_child-Ends :
      (b i connected : Bool)
      → Ends
          (piped b i i (running true connected))
          (IsReapedInto (piped b i i gone))
          (wait_for_child h)
  unfolding wait_for_child waited step
  wait_for_child-Ends b i connected =
      Ends-call {next = waited h} wait_child refl
        (record { at = λ log held. (piped b i i gone, held, refl) })

  -- From the interface of the child on.
  sent-Ends :
      (b i connected : Bool)
      → (connected || not b) ≡ true
      → Ends
          (piped b i i (running true connected))
          (IsReapedInto (piped b i i gone))
          (attempt h (1, false) (write_config cfg) (call close_write_end (wait_for_child h)))
  unfolding step
  sent-Ends b i connected ready =
      let at = piped b i i (running true connected) in
      let e : (done : Bool) → step (write_config cfg) done at ≡ some at = λ done. rw ready refl in
      Ends-attempt h (1, false) (write_config cfg) (e true) (e false) refl
        (Ends-call close_write_end refl (wait_for_child-Ends b i connected))

  raw-Ends :
      (b i connected : Bool)
      → (connected || not b) ≡ true
      → cfg.interactive ≡ i
      → Ends (piped b i i (running true connected)) (IsReapedInto (piped b i i gone)) (
          when cfg.interactive
            (attempt h (1, false) make_raw)
            (attempt h (1, false) (write_config cfg) (call close_write_end (wait_for_child h))))
  unfolding step
  raw-Ends b true connected ready e =
      Ends-when cfg.interactive _ _
        (λ _. Ends-attempt h (1, false) make_raw refl refl refl (sent-Ends b true connected ready))
        (λ f. cc)
  raw-Ends b false connected ready e =
      Ends-when cfg.interactive _ _ (λ f. cc) (λ _. sent-Ends b false connected ready)

  supervise-Ends :
      (b i : Bool)
      → is_bridge cfg ≡ b
      → cfg.interactive ≡ i
      → Ends (piped b i i (running false false)) (IsReapedInto (piped b i i gone)) (supervise h cfg)
  unfolding supervise step
  supervise-Ends true i e e' =
      Ends-attempt h (1, false) attach_child refl refl refl
        (Ends-when (is_bridge cfg) _ _
          (λ _. Ends-attempt h (1, false) move_veth refl refl refl (raw-Ends true i true refl e'))
          (λ f. cc))
  supervise-Ends false i e e' =
      Ends-attempt h (1, false) attach_child refl refl refl
        (Ends-when (is_bridge cfg) _ _ (λ f. cc) (λ _. raw-Ends false i false refl e'))

  -- The watch over the size of the terminal, and what it is stopped after.
  resized-Ends :
      (b i : Bool)
      → is_bridge cfg ≡ b
      → cfg.interactive ≡ i
      → Leaves (piped b i false (running false false)) (piped b i false gone) (
          call close_read_end (
            when cfg.interactive
              (λ next. call watch_resize (deferred stop_resize next))
              (unless_reaped (supervise h cfg))))
  unfolding step
  resized-Ends b true e e' = Ends-call close_read_end refl (
      Ends-when cfg.interactive _ _
        (λ _.
          Ends-call watch_resize refl
            (Leaves-deferred stop_resize refl (Leaves-unless_reaped (supervise-Ends b true e e'))))
        (λ f. cc))
  resized-Ends b false e e' = Ends-call close_read_end refl (
      Ends-when cfg.interactive _ _ (λ f. cc)
        (λ _. Leaves-unless_reaped (supervise-Ends b false e e')))

  started-Ends :
      (b i : Bool)
      → is_bridge cfg ≡ b
      → cfg.interactive ≡ i
      → Leaves (piped b i false (running false false)) (piped b false false gone) (started h cfg)
  unfolding started step
  started-Ends b true e e' =
      Ends-when cfg.interactive _ _
        (λ _. Leaves-deferred_check h close_terminal refl refl (resized-Ends b true e e')) (λ f. cc)
  started-Ends b false e e' =
      Ends-when cfg.interactive _ _ (λ f. cc) (λ _. resized-Ends b false e e')

  launch-Ends : (b : Bool) → is_bridge cfg ≡ b → Leaves (limited b) (limited b) (launch h cfg)
  unfolding launch step attributes
  launch-Ends b e = Ends-attempt h 1 make_pipe refl refl refl (
      Leaves-deferred close_pipe refl (
        Ends-attempt h 1 (start_child (attributes h cfg) (internal_child_environment cfg.env_vars))
          refl refl refl (started-Ends b cfg.interactive e refl)))

  confine-Ends : Leaves nothing nothing (confine h cfg)
  unfolding confine with_bridge step
  confine-Ends = Ends-call notify_signals refl (
      Leaves-deferred stop_signals refl (
        Ends-attempt h 1 _ refl refl refl (
          Leaves-deferred_check h clean_limits refl refl (
            Ends-when (is_bridge cfg) _ _
              (λ e. Ends-attempt h 1 (set_up_bridge cfg.bridge_config) refl refl refl (
                Leaves-deferred_check h tear_down_bridge refl refl
                  (Ends-attempt h 1 set_up_firewall refl refl refl (launch-Ends true e))))
              (λ e. launch-Ends false e)))))

module _ (h : Host) where
  root-Ends :
      (cfg : Config) (remote : Option RemoteRootFs) (done : Bool)
      → step (root_act h cfg remote) done nothing ≡ some nothing
  unfolding step
  root-Ends cfg none done = refl
  root-Ends cfg (some remote) done = refl

  resolved_root-Ends :
      (cfg : Config) (found : Option Text) (log : Log)
      → replay log ≡ some nothing
      → (end : Held) × (replay (resolved_root h found (root_act h cfg cfg.remote_rootfs) cfg log).1
          ≡ some end)
        × (end ≡ nothing)
  unfolding step call
  resolved_root-Ends cfg none log held =
      let a = root_act h cfg cfg.remote_rootfs in
      let before = replayed log a false held (root-Ends cfg cfg.remote_rootfs false) in
      (nothing, replayed _ finish_progress true before refl, refl)
  resolved_root-Ends cfg (some path) log held =
      let a = root_act h cfg cfg.remote_rootfs in
      let before = replayed log a true held (root-Ends cfg cfg.remote_rootfs true) in
      (confine-Ends h (with_root h cfg path)).at _ (replayed _ finish_progress true before refl)

  provision-Ends : (cfg : Config) → Leaves nothing nothing (provision h cfg)
  unfolding provision step
  provision-Ends cfg =
      Leaves-deferred finish_progress refl
        (record { at = λ log held. resolved_root-Ends cfg (h.resolved log) log held })

  admit-cases :
      {E F A B : Type 0} (config : Result E A) (names : Result F B) (next : Ending ℕ) (log : Log)
      → (admit h config names next log ≡ (1, log)) ⊎ (admit h config names next log ≡ next log)
  admit-cases (err e) names next log = inl refl
  admit-cases (ok _) (err e) next log = inl refl
  admit-cases (ok _) (ok _) next log = inr refl

  -- `Parent` ends at once with 1, or does what it does with a configuration that it accepts.
  pub parent-cases :
      (platform : Validate.Platform) (registry : Security.Platform) (cfg : Config) (log : Log)
      → (parent h platform registry cfg log ≡ (1, log))
        ⊎ (parent h platform registry cfg log ≡ accepted h cfg log)
  unfolding parent
  parent-cases platform registry cfg log = admit-cases _ _ (accepted h cfg) log

  -- The calls of `Parent` are a run of the machine from nothing back to nothing.
  pub replay-parent :
      (platform : Validate.Platform) (registry : Security.Platform) (cfg : Config)
      → replay (parent h platform registry cfg []).1 ≡ some nothing
  unfolding step accepted
  replay-parent platform registry cfg = elim (parent-cases platform registry cfg []) [
    | inl refused ↦ rw refused (unfold replay in refl)
    | inr same ↦
        let run : Leaves nothing nothing (accepted h cfg) =
          Ends-when cfg.interactive _ _
            (λ _. Ends-attempt h 1 check_terminal refl refl refl (provision-Ends _))
            (λ _. provision-Ends _) in
        let (end, done, e) = run.at [] (unfold replay in refl) in rw same (rw (← e) done)
  ]
