-- ===== src/Lib.antt =====
-- A model of qnx-virtio, the VirtIO drivers for QNX: the queue of free descriptors, the virtqueue,
-- the device layer, its transports over memory-mapped registers and over PCI, the GPIO driver, its
-- resource manager, its options, its logger and its start.
--
-- The parts, from the bottom:
-- Common (helpers): tests on numbers, lists and byte blocks over the native numbers, bit
--   operations, the unsigned integers of C as remainders, error codes and results.
-- Spinlock and Os: the calls of <pthread.h> and of the system that the program makes and does not
--   implement. They are records of functions, which the definitions take as parameters, with their
--   documented effects as laws (`Spinlock`, `Accounting`, `Errnos`, `MallocFits`).
-- Fifo: utils/fifo/fifo.c. `struct fifo` is the record `Fifo`, its data a list of bytes.
--   Fifo/Queue is the abstract queue, Fifo/Laws the invariant, Fifo/Refine and Fifo/Run relate the
--   two.
-- Virtq: src/virtio/virtq.c. `struct virtq` is the record `Virtq`; the descriptor table and the
--   rings, which are shared with the device, are lists in it. Virtq/Layout, Virtq/Mapping and
--   Virtq/Create model `virtq_create` and `virtq_destroy` with every branch that unwinds, Virtq/Alloc
--   `virtq_alloc_desc` and `virtq_free_desc`, Virtq/Chain `virtq_put_desc_chain` and
--   `virtq_get_desc_chain`. Virtq/FreeList, Virtq/Ownership, Virtq/Mapped, Virtq/Fresh, Virtq/Walk,
--   Virtq/Submit, Virtq/Fits and Virtq/Unwind hold the proofs; Virtq/Frames and Virtq/Tables say
--   what each call leaves alone, for the proofs of the driver. Virtq/Sample is a queue on which
--   tests run.
-- Virtio: src/virtio/virtio.h and src/virtio/virtio.c. `struct virtio_ops` is the record `Ops` over
--   the state of a transport, `struct virtio_device` the record `Device`. Virtio/Reset models the
--   resets, Virtio/Queue `virtio_create_queue`, Virtio/Service the thread `virtio_ist` by its steps;
--   Virtio/Laws, Virtio/Polling, Virtio/Keeps and Virtio/Kept hold the proofs.
-- Mmio: src/virtio_mmio/virtio_mmio.c over a `Bus` of 32-bit registers. Mmio/Config, Mmio/Address,
--   Mmio/Callback and Mmio/Init hold the longer operations; Mmio/Laws gives the device layer its
--   status register, Mmio/Rings, Mmio/Words and Mmio/Queues hold the other proofs.
-- Pci: src/virtio_pci/virtio_pci.c over a `Region` of device memory, in which the fields of `struct
--   virtio_pci_common_cfg` lie at their offsets, and a `PciServer`, the calls of the PCI server of the
--   system. Pci/Config, Pci/Address and Pci/Callback hold the longer operations, Pci/Caps the
--   capability walk, Pci/Init `virtio_pci_init`; Pci/Laws, Pci/Found, Pci/Detached and
--   Pci/Strays hold the proofs.
-- Gpio: src/gpio/gpio.c. `struct virtio_gpio_device` is the record `Gpio`; the buffers and the
--   waiting callers' contexts lie by their addresses in a `Memory`. Gpio/Request models
--   `virtio_gpio_request`, Gpio/Callback `virtq_callback`, Gpio/Calls the calls that wait, over the
--   semaphores of <semaphore.h>, and Gpio/Start `virtio_gpio_init` over any transport. Gpio/Posted,
--   Gpio/Exchange, Gpio/RoundTrip, Gpio/Refused, Gpio/Waiting, Gpio/Handshake and Gpio/OnMmio (the
--   start on memory-mapped registers) hold the proofs for one request and for the start.
--   Gpio/Flights is for several: what a driver with requests in flight looks like (`InFlight`), and
--   in its children the outcomes of an allocation (Alloc), of a request (Launch, Sent) and of the
--   completion callback (Landing, Batch), and the states that are reached when callers, device and
--   interrupt thread take their steps in any order (Reach). Gpio/Board and Gpio/Panel are a driver
--   and a device on which tests run.
-- Resmgr: src/gpio/resmgr.c. The handlers of files are functions over `GpioCalls`, the calls that
--   src/gpio/gpio.h declares, which `gpio_calls` fills with the driver's; Resmgr/Run models
--   `resmgr_run` over the calls of the system. Resmgr/Files and Resmgr/Names hold the proofs, and
--   Resmgr/Device those that follow a read or a write down to the device's answer.
-- Options: src/gpio/options.c over the options that the C library finds; Options/Split holds the
--   proofs.
-- Logging: utils/logging/logging.c over a `LogSystem`, the calls of the mutex, of <sys/slog2.h> and of
--   <stdio.h>. `struct logging_ctx` is the record `LoggingCtx`. Logging/Lifecycle has the logger as
--   its users see it, Logging/Locks and Logging/Basename other proofs.
-- Main: src/gpio/main.c, over the other parts.
-- Sim: a small system on which the tests run the definitions.
--
-- How they interact: a virtqueue keeps its free descriptors in a fifo of 16-bit indices; the device
-- layer creates virtqueues and calls the transport through `Ops`; the transport reads the addresses
-- of a virtqueue and writes them to its registers. The GPIO driver posts a request as a chain of two
-- descriptors with the address of the caller's context, and its callback, which runs when the device
-- has answered, reads that context back from the virtqueue, fills it and frees both descriptors.
--
-- Conventions. A function that changes a structure returns the new one beside its code. A null
-- pointer is `none`; an output pointer that is only checked is a Boolean. Integers keep their
-- wrap-around, as remainders. A memory access out of range reads zeros and writes nothing; the
-- table and the rings of a queue have as many entries as lie in what is mapped for them.
--
-- Fuel: the loops that wait or walk (`pause`, `poll_device`, `poll_queue`, `drain`, `repeat`,
-- `walk_caps`, `serve_all`, the GPIO driver's `virtq_callback` and `context_wait`) take fuel and
-- return `none` when it runs out. `pause` has as much fuel as milliseconds to sleep; for the device
-- reset, the walk, the callback and the wait the results below say which fuel is enough. The loops
-- over descriptors and words recur on their count. `virtio_ist` never ends and is modelled by its
-- steps, of which nothing is proved.
--
-- Interleavings: in Gpio/Flights/Reach a request and a run of the completion callback are one step
-- each, with any steps of the device and of the callers between them. In the
-- program only the accesses to the free list and to the rings are under a lock.
--
-- Not modelled: the messages that the parts other than Main log, `virtq_print` and the text of the
-- usage (output only), the comments and declarations of the headers, the tests and their tools, and
-- src/gpio/uapi, the types and numbers of the Linux GPIO interface, but for the few that the resource
-- manager uses. No call of the driver asks for the names of the lines.
pub mod Common
pub mod Spinlock
pub mod Os
pub mod Fifo
pub mod Virtq
pub mod Virtio
pub mod Mmio
pub mod Pci
pub mod Gpio
pub mod Resmgr
pub mod Options
pub mod Logging
pub mod Main
pub mod Sim
