-- ===== src/Work/Submission.antt =====
-- `Store.submit` of src/personal_ai_brain/work_store.py made again, after any other calls.
