-- ===== src/Device/Timers/Safety.antt =====
-- No work is used after it is freed, and no call waits forever, as long as the timers are timely.
