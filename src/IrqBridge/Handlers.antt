-- ===== src/IrqBridge/Handlers.antt =====
-- The table of handlers of irq_bridge.c.
use vros.Base.{
  ==→ne, ℕ, ◌<◌, ◌≡◌, refl, sym, ap, ◌∙◌, ◌≢◌, inl, inr, true, arith, length, set, ◌==◌,
}
use vros.Base.{get_or-set_ne, get_or-set_self, set-set, set-get_or, Bool-cases}
use vros.Ipc.{current_pid}
use vros.IrqBridge.{
  IrqBridge, IrqHandler, irq_lines, no_handler, handler_at, has_task, irq_bridge_register,
  irq_bridge_unregister,
}

-- A process can neither take over nor remove the handler of another process: whatever line it
-- names, the handler stays.
pub foreign_kept :
    (irq line port : ℕ) (s : IrqBridge)
    → (handler_at s irq).registered ≡ true
    → (handler_at s irq).pid ≢ current_pid s.ipc
    → (handler_at (irq_bridge_register line port s).1 irq ≡ handler_at s irq)
      × (handler_at (irq_bridge_unregister line s).1 irq ≡ handler_at s irq)
unfolding irq_bridge_register irq_bridge_unregister
foreign_kept irq line port s used foreign = elim (Bool-cases (line == irq)) [
  | inl same ↦
      let e : line ≡ irq = ground (arith, same) in
      rw e (ground (arith, used, foreign), ground (arith, used, foreign))
  | inr other ↦
      let ne : line ≢ irq = ==→ne line irq other in
      (
        ground (
          arith,
          get_or-set_ne s.irq_handlers line irq
              (record { ipc_port = port; pid = current_pid s.ipc; registered = true }) no_handler
              ne,
        ),
        ground (arith, get_or-set_ne s.irq_handlers line irq no_handler no_handler ne),
      )
]

-- Registering a free line succeeds, and giving it back restores the whole state.
pub unregister-register :
    (line port : ℕ) (s : IrqBridge)
    → line < irq_lines
    → length s.irq_handlers ≡ irq_lines
    → has_task s ≡ true
    → handler_at s line ≡ no_handler
    → let (ok, s') = irq_bridge_register line port s in
      (ok ≡ true) × (irq_bridge_unregister line s' ≡ (true, s))
unfolding irq_bridge_register irq_bridge_unregister
unregister-register line port s lt table task nil =
    let h : IrqHandler = record { ipc_port = port; pid = current_pid s.ipc; registered = true } in
    let s1 = record s { irq_handlers = set s.irq_handlers line h } in
    let first : irq_bridge_register line port s ≡ (true, s1) = ground (arith, task, nil) in
    let there : handler_at s1 line ≡ h =
      get_or-set_self s.irq_handlers line h no_handler (omega (arith, table)) in
    let back : set (set s.irq_handlers line h) line no_handler ≡ s.irq_handlers =
      set-set s.irq_handlers line h no_handler
      ∙ ap (set s.irq_handlers line) (sym nil)
      ∙ set-get_or s.irq_handlers line no_handler in
    let again : irq_bridge_unregister line s1
        ≡ (true, record s1 { irq_handlers = set s1.irq_handlers line no_handler }) =
      ground (arith, task, there) in
    rw first (refl, again ∙ ap (λ hs. (true, record s { irq_handlers = hs })) back)
