-- ===== src/Ps/Power.antt =====
-- The state machine of power save in rsi/rsi_91x_ps.c (Linux 6.0 and later).
use si91x_rcp_driver.Prelude.{
  ℕ, ◌+◌, ◌*◌, Bool, true, false, not, ◌&&◌, List, ◌==◌, if◌then◌else◌, get_or,
}
use si91x_rcp_driver.Ps.State.{
  PsState, ps_none, ps_enable_req_sent, ps_disable_req_sent, ps_enabled, Adapter,
}
use si91x_rcp_driver.Ps.Request.{sleep_request, wakeup_request, send_ps_request}

unfoldable pub modify_ps_state : Adapter → PsState → Adapter
modify_ps_state a s = record a { ps_state = s }

unfoldable pub ps_eq : PsState → PsState → Bool
ps_eq ps_none ps_none = true
ps_eq ps_enable_req_sent ps_enable_req_sent = true
ps_eq ps_disable_req_sent ps_disable_req_sent = true
ps_eq ps_enabled ps_enabled = true
ps_eq _ _ = false

unfoldable pub enable_ps : (ℕ → Bool) → Adapter → Adapter
enable_ps alloc a =
    let (ok, a₁) = send_ps_request alloc a true in
    if ok then modify_ps_state (record a₁ { user_ps_en = true }) ps_enable_req_sent else a₁

unfoldable pub disable_ps : (ℕ → Bool) → Adapter → Adapter
disable_ps alloc a =
    let (ok, a₁) = send_ps_request alloc a false in
    if ok
    then modify_ps_state
        (if (a₁.ps_info.monitor_interval == 0) && not a₁.disable_ps_from_lmac
          then record a₁ { user_ps_en = false }
          else a₁)
        ps_disable_req_sent
    else a₁

unfoldable pub conf_uapsd : (ℕ → Bool) → Adapter → Adapter
conf_uapsd alloc a =
    if not (ps_eq a.ps_state ps_enabled)
    then a
    else (let (ok, a₁) = send_ps_request alloc a false in
        if ok then (send_ps_request alloc a₁ true).1 else a₁)

abbrev pub ps_confirm_index : ℕ
ps_confirm_index = 12

-- `*(u16 *)&msg[PS_CONFIRM_INDEX]` on a little-endian host
unfoldable pub cfm_type : List ℕ → ℕ
cfm_type msg = get_or msg ps_confirm_index 0 + 256 * get_or msg (ps_confirm_index + 1) 0

-- The flag is a return value of 0.
unfoldable pub handle_ps_confirm : Adapter → List ℕ → Bool × Adapter
handle_ps_confirm a msg =
    let t = cfm_type msg in
    if t == sleep_request
    then (true, if ps_eq a.ps_state ps_enable_req_sent then modify_ps_state a ps_enabled else a)
    else (if t == wakeup_request
        then (true, if ps_eq a.ps_state ps_disable_req_sent then modify_ps_state a ps_none else a)
        else (false, a))
