-- ===== src/Pipe/Closing.antt =====
-- What is left of a pipe of kernel/pipe.c when one of its ends has been closed.
