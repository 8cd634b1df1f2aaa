-- ===== src/Usb/Driver/Sane/Steps.antt =====
-- The bounds of the device table through the commands and transfers of a driver.
use sacabambaspos.Base.{ℕ, ◌+◌, ◌^◌, ◌*◌, ◌≡◌, refl, Bool, not, ◌&&◌, ◌==◌, test_bit}
use sacabambaspos.Usb.Driver.{UsbDev}
use sacabambaspos.Usb.Driver.Devices.{
  Chip, Drv, device, put_dev, command, push_ep0, push_transfer, receive, await_transfer, ctrl_xfer,
  disable_slot, stop_repeat, dev_drop, setup_of, transfer_type,
}
use sacabambaspos.Usb.Driver.Sane.{
  IsSane, Keeps, get_or-IsTable, set-IsTable, same-IsSane, if-keeps, ring_push-enq, wait_done-Keeps,
  cmd_exec-Keeps,
}

-- The bounds on the table of a driver.
pub record Sound (slots : ℕ) (s : Drv) : Type 0 where
  pub inner : Keeps slots s.hc.x

-- A driver with the same table.
pub move :
    {slots : ℕ} {s : Drv} (s' : Drv) → s'.hc.x.dev ≡ s.hc.x.dev → Sound slots s → Sound slots s'
move s' e k = record { inner = record { table = rw e k.inner.table } }

pub device-IsSane : (slots i : ℕ) (s : Drv) → Sound slots s → IsSane slots (device i s)
unfolding device
device-IsSane slots i s k = get_or-IsTable i k.inner.table

pub put_dev-Sound :
    (slots i : ℕ) (d : UsbDev) (s : Drv)
    → IsSane slots d
    → Sound slots s
    → Sound slots (put_dev i d s)
unfolding put_dev
put_dev-Sound slots i d s v k = record { inner = record { table = set-IsTable i v k.inner.table } }

-- The device is changed in fields that have no bound.
pub change-Sound :
    (slots i : ℕ) (d : UsbDev) (s : Drv)
    → d.slot ≡ (device i s).slot
    → d.rlen ≡ (device i s).rlen
    → d.epi ≡ (device i s).epi
    → d.ep0 ≡ (device i s).ep0
    → Sound slots s
    → Sound slots (put_dev i d s)
change-Sound slots i d s a b c e k =
    put_dev-Sound slots i d s (same-IsSane (device-IsSane slots i s k) a b c e) k

pub command-Sound : (slots p ctl : ℕ) (s : Drv) → Sound slots s → Sound slots (command p ctl s).1
unfolding command
command-Sound slots p ctl s k = record { inner = cmd_exec-Keeps slots p ctl s.hc k.inner }

push_ep0-Sound :
    (slots i p len ctl : ℕ) (s : Drv) → Sound slots s → Sound slots (push_ep0 i p len ctl s)
unfolding push_ep0
push_ep0-Sound slots i p len ctl s k =
    let v = device-IsSane slots i s k in
    let enq = ring_push-enq p len ctl (device i s).ep0 v.ep0 in
    put_dev-Sound slots i _ s (record { slot = v.slot; rlen = v.rlen; epi = v.epi; ep0 = enq }) k

push_transfer-Sound :
    (slots : ℕ) (c : Chip) (i bm req val idx len : ℕ) (s : Drv)
    → Sound slots s
    → Sound slots (push_transfer c i bm req val idx len s)
unfolding push_transfer
push_transfer-Sound slots c i bm req val idx len s k =
    let k1 =
      push_ep0-Sound slots i (setup_of bm req val idx len) 8
        (2 * 2 ^ 10 + 2 ^ 6 + transfer_type bm len * 2 ^ 16) s k in
    push_ep0-Sound slots i 0 0 _ _
      (if-keeps (Sound slots) (len == 0) k1 (push_ep0-Sound slots i c.xbuf len _ _ k1))

await_transfer-Sound : (slots i : ℕ) (s : Drv) → Sound slots s → Sound slots (await_transfer i s).1
unfolding await_transfer
await_transfer-Sound slots i s k = record {
  inner = wait_done-Keeps slots 1500 _ (record { table = k.inner.table });
}

receive-Sound : (slots bm len : ℕ) (s : Drv) → Sound slots s → Sound slots (receive bm len s)
unfolding receive
receive-Sound slots bm len s k =
    if-keeps (Sound slots) (not (len == 0) && test_bit bm 7) (move _ refl k) k

pub ctrl_xfer-Sound :
    (slots : ℕ) (c : Chip) (i bm req val idx len : ℕ) (s : Drv)
    → Sound slots s
    → Sound slots (ctrl_xfer c i bm req val idx len s).1
unfolding ctrl_xfer
ctrl_xfer-Sound slots c i bm req val idx len s k =
    receive-Sound slots bm len _
      (await_transfer-Sound slots i _ (push_transfer-Sound slots c i bm req val idx len s k))

disable_slot-Sound : (slots slot : ℕ) (s : Drv) → Sound slots s → Sound slots (disable_slot slot s)
unfolding disable_slot
disable_slot-Sound slots slot s k = move _ refl (command-Sound slots _ _ s k)

stop_repeat-Sound :
    (slots : ℕ) (is_kbd : Bool) (s : Drv) → Sound slots s → Sound slots (stop_repeat is_kbd s)
unfolding stop_repeat
stop_repeat-Sound slots is_kbd s k = if-keeps (Sound slots) is_kbd (move _ refl k) k

pub dev_drop-Sound : (slots i : ℕ) (s : Drv) → Sound slots s → Sound slots (dev_drop i s)
unfolding dev_drop
dev_drop-Sound slots i s k =
    let slot = (device i s).slot in
    let k1 = if-keeps (Sound slots) (slot == 0) k (disable_slot-Sound slots slot s k) in
    change-Sound slots i _ _ refl refl refl refl (stop_repeat-Sound slots _ _ k1)
