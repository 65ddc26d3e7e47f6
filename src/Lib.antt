-- ===== src/Lib.antt =====
-- A chat over TCP whose messages may be encrypted, and the virtio device that gives a virtual
-- machine the encryption hardware of its host.
--
-- The chat (socket-common.c; socket-client.c and socket-server.c for two ends, socket-server-irc.c for
-- many clients) sends a message as its length in four bytes and
-- its text, or, with --encrypted, as one block of 256 bytes that /dev/crypto has encrypted. In a
-- virtual machine /dev/crypto is the character device of the guest driver
-- (virtio-crypto/guest/crypto-chrdev.c, crypto-module.c), which sends each call as one request over
-- a virtqueue to the device in qemu (virtio-crypto/qemu/hw/char/virtio-crypto.c), which makes the
-- call on the /dev/crypto of the host.
--
-- Which file models what:
--   Run             how a run of the code ends: a value, exit, a fault, a loop without end
--   Io              socket-common.c: insist_write and insist_read over a stream (Port), whose
--                   reads and writes transfer what a schedule of turns grants, or fail
--   Cryptodev       virtio-crypto/guest/cryptodev.h: structures, commands, the device as a record
--                   of calls; Cryptodev/Service: what a device on which no call fails promises
--   Chat/Buffer     memcpy, strcpy and the passing of a part of an array, with their bounds
--   Chat/Word       uint32_t, htonl and ntohl
--   Chat/Cipher     socket-common.c: encrypt and decrypt
--   Chat/Client     socket-common.c: my_rlhandler and get_and_print
--   Chat/Client/Session  socket-client.c: the loop of main (the same as in socket-server.c)
--   Chat/Start      main of the three programs up to its loop: arguments, prompt, socket
--   Chat/Programs   socket-client.c, socket-server.c, socket-server-irc.c: main
--   Chat/Server     socket-server-irc.c: forward, with the table of descriptors and newsd_serve
--   Chat/Server/Threads  socket-server-irc.c: main's accept loop and client_service, as events
--   Chat/Server/Locks  socket-server-irc.c: forward by several threads at once, with the semaphores;
--                   Chat/Server/Locks/Single: a thread's steps and the code of forward
--   Chat/Room       socket-client.c at every client and socket-server-irc.c between them
--   Virtio          the calls of a virtqueue, and what a queue with one request at a time promises
--   Backend         virtio-crypto.c: vq_handle_output; Backend/Device: realize and the class;
--                   Backend/Pci: virtio-pci.c: virtio_crypto_pci_init and _class_init
--   Guest/Devices   crypto-module.c: virtcons_probe, virtcons_remove; the lookup by minor number;
--                   Guest/Devices/Events: probes and removals in any order
--   Guest/Chrdev    crypto-chrdev.c: crypto_chrdev_open, crypto_chrdev_release, crypto_chrdev_ioctl
--   Guest/Chrdev/Memory  crypto-chrdev.c: what the three allocate and free, with the sizes
--   Guest/Chrdev/Agree   crypto-chrdev.c, virtio-crypto.c: the entries that both ends read
--   Guest/Lock      crypto-chrdev.c: calls of many processes at once under crdrvdata.lock
--   Guest/Device    crypto-chrdev.c: crypto_chrdev_fops, the device as a process of the guest sees it;
--                   Guest/Device/Driver: this device, each of whose calls is the driver's
--   Guest/Setup     crypto-module.c: init and fini; crypto-chrdev.c: crypto_chrdev_init and _destroy;
--                   Guest/Setup/Plugged: id_table and the device that qemu has set up
--   SelfTest        cryptodev/crypto-test.c, virtio-crypto/guest/test_crypto.c and test_fork_crypto.c
--   Tests           the theorems at concrete inputs
--
-- Not in the repository and therefore parameters: the cryptodev kernel module (Cryptodev, Service),
-- the virtqueue of Linux and qemu (Virtqueue, Carries), the kernel's allocator (Allocator, Allocates),
-- the virtio core of qemu (Qemu, Builds), and what each read and write
-- transfers (Turn), the guest's choice of descriptors (new_fd), the registrations of the guest's kernel
-- (Kernel, Registers), and the calls of the network (Sockets).
--
-- Fuel: insist_write and insist_read run on as many rounds as they have bytes to transfer, since
-- each round that does not end the loop transfers a byte: a write of bytes that returns 0, which
-- write(2) does not do on a socket, is not among the turns. The guest's wait for the
-- device is given the number of polls before qemu runs, which is arbitrary. The insist_read of
-- crypto-test.c has the same fuel, and uses it up only at the end of its stream, where the code
-- loops for ever.
--
-- Chat/Server models forward as the code of one thread, with every error; Chat/Server/Locks as steps of
-- several threads, in any order, without errors. Likewise Guest/Chrdev models a call on the driver as
-- the code of one process with the queue to itself, and Guest/Lock the calls of any number of processes
-- as steps under crdrvdata.lock, in any order with those of qemu.
--
-- ioctl reads two length words of its argument in place (Guest/Chrdev); they are taken to be readable,
-- as the kernel faults where they are not. malloc may give NULL to socket-server-irc.c, and the theorems
-- whose message is forwarded say that it does not.
--
-- Not modelled: readline's screen, diagnostics, the memory of the chat programs, fork and wait, the
-- registration of types with qemu's object system, and the rest of
-- virtio-crypto/qemu/hw/virtio/virtio-pci.c, which is a copy of qemu's.
pub mod Common
pub mod Run
pub mod Io
pub mod Cryptodev
pub mod Chat
pub mod Virtio
pub mod Backend
pub mod Guest
pub mod Tests
pub mod SelfTest
