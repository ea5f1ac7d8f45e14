-- ===== src/Lib.antt =====
-- The kernel of unagi-os (src/ of the repository, i386): the parts that keep state or compute, as
-- models in Type theory, with theorems on them. Numbers of the C code are natural numbers; where a width
-- matters, the wrap-around is written out (Common/Words.antt). An array that is a list faults on an
-- access outside it, with `none`; so does the dereference of a null pointer that is an option, and a loop
-- whose fuel runs out. What the code finds by an address is a total function, without bounds: the nodes of Dlist, the chunks of Heapdl, the
-- timers, the tasks and the bytes of Kutil/Memory; and so are the cells of ColorTextMode and the pixels, the
-- z map and the layers of Sheet, where theorems say which of them are written.
--
-- The parts, and how they depend on each other:
--
--   Common, Status   shared names, lists, integers and words; the error codes of src/status.h.
--   Fifo             src/util/fifo.c. `FIFO32` is the record Fifo32; fifo32_init, _enqueue, _dequeue, _peek
--                    and _status_getUsageB are init, enqueue, dequeue, peek and status_get_usage. Fifo/Queue
--                    is the bounded queue that it stands for, Fifo/Refine the refinement.
--   Dlist            src/util/dlist.c and dlist.h. The links of all nodes are two functions on addresses.
--                    Dlist/Chain says what a circle is; Dlist/Circle and Dlist/Inner what each
--                    operation does to circles; Dlist/Frame that other circles are kept.
--   Kutil            src/util/kutil.c: Kutil/Align the alignment of addresses, Kutil/Strings strings and
--                    regions of memory, with Kutil/Strings/Compare and Kutil/Strings/Hex on them;
--                    Kutil/Remove the removal of elements from an array; Kutil/Memory what writes regions of
--                    memory: kmemset, kmemcpy and kstrcpy.
--   ColorTextMode    src/drivers/graphic/colortextmode.c: the functions lose the prefixes colortextmode_ and
--                    current_terminal_; ColorTextMode/Scroll is on _terminal_scroll, ColorTextMode/Print on
--                    terminal_write_char and kprint.
--   Heapdl           src/memory/heapdl.c, the chunk allocator, over Dlist and Kutil/Align. chunk_init,
--                    chunk_slice, chunk_engage, chunk_merge and chunk_free keep their names;
--                    k_heapdl_mm_init, _malloc, _free, _get_free and _get_usage lose their prefix.
--                    Heapdl/Rep is the invariant; Heapdl/Search, Heapdl/Safety and Heapdl/Init use the
--                    lemmas of the other files on it. The bytes behind the headers are not modelled.
--   Memory           src/memory/memory.c: k_mm_init, kmalloc and kfree, over Heapdl.
--   HeapTable        src/memory/heap.c, the other allocator, a table with one byte for each block;
--                    heap_malloc and heap_free are malloc and free, and so on.
--   Process          src/kernel/process.c, the scheduler. __mprocess_task_add, mprocess_task_remove, _run, _sleep
--                    and _autoswitch are task_add, task_remove, task_run, task_sleep and autoswitch.
--                    Process/Level sees a level as a list of tasks, Process/Valid is the invariant,
--                    Process/Run, Process/Switch and Process/Sleep are the operations. Far jumps and the
--                    timer's resets are events.
--   MpFifo           src/kernel/mprocessfifo.c, over Fifo and Process: a queue that wakes its task.
--   Ps2Mouse         src/drivers/ps2mouse.c, the decoder of the mouse's packets.
--   Timer            src/pic/timer.c, over Dlist; queues, `kfree` and the switch of tasks are events. Timer/Order
--                    is the invariant; Timer/Setup, Timer/Start, Timer/Release and Timer/Interrupt are on
--                    timerctl_init, timer_settimer, timer_free and timer_int_handler, Timer/Insert and
--                    Timer/Restart on timer_settimer of a timer that counts down.
--   PathParser       src/fs/pathparser.c, over Kutil/Strings: path_parse is parse, path_free is free. PathParser/Drive
--                    and PathParser/Part are on the parts of a path, PathParser/RoundTrip, PathParser/Errors
--                    and PathParser/Free on the whole.
--   Disk             src/disk/disk.c, with the ports as a parameter; Disk/Ata says what a drive does behind them.
--                    Disk/Stream is src/disk/dstream.c: dstream_new, _seek and _read are new, seek and read.
--                    Disk/Stream/Read is on one call of dstream_read, Disk/Stream/Session on the three.
--   Sheet            src/drivers/graphic/sheet.c: the data, sheet_alloc, sheet_update_zmap and
--                    sheet_update_with_screenxy, with Sheet/Paint on them. Sheet/Move has sheet_updown, sheet_slide
--                    and the others that draw; Sheet/Move/Layers is the invariant, Sheet/Move/Shift,
--                    Sheet/Move/Updown, Sheet/Move/Branches and Sheet/Move/Whole are on sheet_updown. Sheet/Textbox
--                    has the text box of a sheet.
--   Paging           src/memory/paging/paging.c, entries, indexes, and paging_set_page against the
--                    processor's walk.
--   Gdt              src/gdt/gdt.c, descriptors and gdt_append, with the loop of mprocess_init.
--   Idt              src/idt/idt.c and src/pic/pic.c, gates, the dispatcher and the ends of interrupts.
--
-- Fuel and bounds: a walk of a circle (Dlist.entries, Heapdl.malloc) takes fuel, and one more than the
-- nodes of the circle is enough, which the theorems on them state. The timers' loops take fuel
-- also, where one more than the timers of the circle is enough; so does the wait for the drive, as much as
-- the drive is busy, the calls of dstream_read, one more than the bytes, kstrcpy, one more than the string, and
-- the loop over the parts in path_parse, for which PathParser/RoundTrip and PathParser/Errors say how much is enough.
-- All other loops are recursion on a count or on a list. The scheduler has 10 levels of at most 100 tasks,
-- as in src/config.h; the GDT 8192
-- descriptors; addresses are below 2 ^ 32.
--
-- Not modelled: assembly (src/boot, src/io, src/asmfunc.h), port input, the drawing of pixels, the UEFI
-- loader (UnagiLoaderPkg), the C++ sources taken from another system (src/usb), the libraries copied
-- from other projects (src/util/printf.c, src/util/arith64.c), the font's data; and, as yet, the writing into text
-- boxes, the memory test and the start-up sequence of src/kernel.c.
pub mod ColorTextMode
pub mod Common
pub mod Disk
pub mod Dlist
pub mod Fifo
pub mod Gdt
pub mod HeapTable
pub mod Heapdl
pub mod Idt
pub mod Kutil
pub mod Memory
pub mod MpFifo
pub mod Paging
pub mod PathParser
pub mod Process
pub mod Ps2Mouse
pub mod Sheet
pub mod Status
pub mod Timer
