-- ===== src/Tests.antt =====
-- Runs of the definitions at fixed inputs, and the theorems at inputs that meet their hypotheses.
mod Strings
mod Klog
mod Keyboard
mod Pmm
mod Heap
mod Sched
mod Rtc
mod Ramfs
mod Vmm
mod Vga
mod Printk
mod Process
mod Modules
mod Timer
mod Vfs
mod Loader
mod Syscall
mod Elf
