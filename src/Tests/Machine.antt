-- ===== src/Tests/Machine.antt =====
-- A virtual machine: the guest's device over a first-in first-out queue and a host with no session.
use mathlib.Core.Bool.{false}
use cryptodev_chat.Common.{
  Bool, map, ◌++◌, replicate, ℕ, ◌+◌, ◌≡◌, refl, List, [], ◌∷◌, none, some, true, ℤ, arith,
  length-replicate,
}
use cryptodev_chat.Run.{ok}
use cryptodev_chat.Cryptodev.{Cryptodev}
use cryptodev_chat.Cryptodev.Service.{Service}
use cryptodev_chat.Cryptodev.Toy.{toy, reversing, toy_service, toy_Sharing}
use cryptodev_chat.Io.{Port, upto}
use cryptodev_chat.Chat.Cipher.{Frame}
use cryptodev_chat.Chat.Client.{World, buff_size}
use cryptodev_chat.Chat.Client.Delivery.{connect, AtRest}
use cryptodev_chat.Guest.Device.{Process, Files, sys_open, sys_close, sys_ioctl}
use cryptodev_chat.Guest.Device.Idle.{opened, closed, controlled, guest_device-sys}
use cryptodev_chat.Guest.Device.Driver.{guest_device}
use cryptodev_chat.Guest.Device.Promises.{guest_device-Service}
use cryptodev_chat.SelfTest.{Arrays}
use cryptodev_chat.SelfTest.Fork.{ended, forked}
use cryptodev_chat.SelfTest.TestCrypto.{Stack, data_size, key_size}
use cryptodev_chat.Guest.Device.Fork.{run-guest}
use cryptodev_chat.Guest.Device.Chat.{rounds-guest}
use cryptodev_chat.Chat.Client.Session.{rounds}
use cryptodev_chat.Chat.Client.Session.Rounds.{Line, typing, arriving, texts}
use cryptodev_chat.Chat.Client.Session.Sealed.{FitsBlock}
use cryptodev_chat.Virtio.Fifo.{Rings, fifo, fifo_Carries, no_requests}
use cryptodev_chat.Backend.{Mapping}
use cryptodev_chat.Guest.Chrdev.{UserArg}

abbrev pub mapping : Mapping
mapping = record { base = λ i. 0x7000 + i; in_base = 0x7100 }

-- A process with no open file; descriptors are given out from 3 on, one for all.
abbrev machine : Cryptodev
machine = guest_device toy mapping fifo fifo_Carries (λ files. 3) 2 9 0

guest_device-Service_example :
    Service (guest_device toy mapping fifo fifo_Carries (λ files. 3) 2 9 0) reversing
guest_device-Service_example =
    guest_device-Service toy reversing toy_service mapping fifo fifo_Carries (λ files. 3) 2 9 0

abbrev process : Process Rings (List (List ℕ))
process = record { host = []; vq = no_requests; files = λ fd. none }

abbrev lowest : Files → ℕ
lowest files = 3

guest_device-sys_example :
    (sys_open toy mapping fifo lowest 2 9 0 process
      ≡ ok (
        (opened toy mapping fifo fifo_Carries lowest 2 9 0 (process, refl)).0,
        (opened toy mapping fifo fifo_Carries lowest 2 9 0 (process, refl)).1.0,
      ))
    × ((fd : ℤ)
        → sys_close toy mapping fifo lowest 2 fd process
          ≡ ok (
            (closed toy mapping fifo fifo_Carries lowest 2 9 0 fd (process, refl)).0,
            (closed toy mapping fifo fifo_Carries lowest 2 9 0 fd (process, refl)).1.0,
          ))
    × ((fd : ℤ) (cmd : ℕ) (a : UserArg)
        → sys_ioctl toy mapping fifo lowest 2 fd cmd a process
          ≡ ok (
            (controlled toy mapping fifo fifo_Carries lowest 2 9 0 fd cmd a (process, refl)).0,
            (controlled toy mapping fifo fifo_Carries lowest 2 9 0 fd cmd a (process, refl)).1.0,
          ))
guest_device-sys_example = guest_device-sys toy mapping fifo fifo_Carries lowest 2 9 0 process refl

abbrev frame : Frame
frame = record { input = 0x1000; output = 0x1100; iv = 0x1200; key = 0x1210 }

abbrev stream : Port
stream = record { incoming = []; outgoing = []; turns = upto 2 ∷ upto 0 ∷ [] }

abbrev fresh : List ℕ
fresh = replicate buff_size 7

abbrev end_of_chat : World machine.State
end_of_chat = record { dev = (process, refl); sock = stream; term = stream; buf = fresh }

at_rest : AtRest fresh end_of_chat end_of_chat
at_rest = record {
  malloc_size = refl;
  buf_size = refl;
  empty_wire = refl;
  sends = tt;
  receives = tt;
  shows = tt;
}

-- "hi" and "ok", typed one after the other.
abbrev two_lines : List Line
two_lines = (b'h', b'i' ∷ []) ∷ (b'o', b'k' ∷ []) ∷ []

rounds-guest_example :
    (w' : World machine.State) × (u' : World machine.State) × (rounds machine frame true fresh
        (b'A' ∷ [])
        (map typing two_lines)
        end_of_chat
      ≡ ok (0, w'))
    × (rounds machine frame true fresh
          (b'B' ∷ [])
          (map arriving two_lines)
          (connect end_of_chat w'.sock)
        ≡ ok (0, u'))
    × (u'.term.outgoing ≡ [] ++ texts (b'A' ∷ []) two_lines)
    × (u'.sock.incoming ≡ [])
unfolding FitsBlock
rounds-guest_example =
    rounds-guest toy mapping fifo fifo_Carries (λ files. 3) 2 9 0 frame toy mapping fifo
      fifo_Carries (λ files. 3) 2 9 0 frame fresh (b'A' ∷ []) (b'B' ∷ []) two_lines end_of_chat
      end_of_chat reversing toy_service toy_service at_rest (omega arith, (omega arith, tt))

abbrev arrays : Arrays
arrays = record {
  input = 0x1000;
  encrypted = 0x5000;
  decrypted = 0x9000;
  iv = 0xd000;
  key = 0xd010;
}

abbrev stack : Stack
stack = record { input = replicate data_size 5; iv = []; key = replicate key_size 1 }

abbrev urandom : Port
urandom = record { incoming = 4 ∷ 5 ∷ 6 ∷ []; outgoing = []; turns = upto 2 ∷ [] }

abbrev in_turns : List Bool
in_turns = true ∷ false ∷ true ∷ true ∷ false ∷ true ∷ false ∷ true ∷ false ∷ false ∷ []

run-guest_example :
    (s' : machine.State) × (forked machine arrays
        (machine.open_dev (process, refl)).0
        stack
        stack
        (some urandom)
        (some urandom)
        in_turns
        (machine.open_dev (process, refl)).1
      ≡ ok (record { dev = s'; parent = ended 0; child = ended 0 }))
run-guest_example =
    run-guest toy reversing toy_service toy_Sharing mapping fifo fifo_Carries (λ files. 3) 2 9 0
      arrays stack stack urandom urandom (length-replicate {A = ℕ} data_size 5)
      (length-replicate {A = ℕ} key_size 1) tt (length-replicate {A = ℕ} data_size 5)
      (length-replicate {A = ℕ} key_size 1) tt in_turns (process, refl) (omega arith) (omega arith)
